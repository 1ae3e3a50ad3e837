-- ===== src/Http/Tests.antt =====
-- The answers to two exceptions.
use clean_data_platform_airf.Http.Exceptions.{respond, invalid_state_transition_error}
use clean_data_platform_airf.Http.Answers.{documented_status, AgreesWith, respond-AgreesWith}

respond-AgreesWith_example :
    AgreesWith
      (documented_status invalid_state_transition_error)
      "draft to archived"
      (respond invalid_state_transition_error "draft to archived")
respond-AgreesWith_example = respond-AgreesWith invalid_state_transition_error "draft to archived"
