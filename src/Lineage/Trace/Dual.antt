-- ===== src/Lineage/Trace/Dual.antt =====
-- The two directions of the traversal agree.
use clean_data_platform_airf.Prelude.{
  ◌≡◌, ◌≢◌, refl, sym, String, Bool, true, false, List, contains,
}
use clean_data_platform_airf.Errors.{ok}
use clean_data_platform_airf.Lineage.Mapping.{LineageMapping}
use clean_data_platform_airf.Lineage.Graph.{LineageGraph, node_key, empty, build_from_mappings}
use clean_data_platform_airf.Lineage.Trace.{
  SetOrder, Outcome, done, trace_upstream, trace_downstream,
}
use clean_data_platform_airf.Lineage.Trace.Reach.{Walk, here, step, keys}
use clean_data_platform_airf.Lineage.Trace.Total.{Lists}
use clean_data_platform_airf.Lineage.Trace.Correct.{trace_downstream-Lists, trace_upstream-Lists}

-- The outcome is a list of columns with `k` among them.
abbrev pub lists : Outcome → String → Bool
lists (done result) k = contains k (keys result)
lists _ k = false

module _ {edge : String → String → Bool} where
  Walk-before : {a b c : String} → edge a b ≡ true → Walk edge b c → Walk edge a c
  Walk-before l here = step here l
  Walk-before l (step p m) = step (Walk-before l p) m

Walk-reverse :
    {edge : String → String → Bool} {a b : String} → Walk edge a b → Walk (λ u v. edge v u) b a
Walk-reverse here = here
Walk-reverse (step p l) = Walk-before l (Walk-reverse p)

lists_sound :
    {edge : String → String → Bool} {start : String} (o : Outcome) (k : String)
    → Lists edge start o
    → lists o k ≡ true
    → Walk edge start k × (k ≢ start)
lists_sound o k l h = (l.listed k).0 (rw l.returned at h)

lists_complete :
    {edge : String → String → Bool} {start : String} (o : Outcome) (k : String)
    → Lists edge start o
    → Walk edge start k
    → k ≢ start
    → lists o k ≡ true
lists_complete o k l p other = rw l.returned ((l.listed k).1 (p, other))

Bool-eq : (a b : Bool) → (a ≡ true → b ≡ true) → (b ≡ true → a ≡ true) → a ≡ b
Bool-eq true b f g = sym (f refl)
Bool-eq false true f g = g refl
Bool-eq false false f g = refl

-- A column is listed downstream of another exactly if that one is listed upstream of it, in
-- whatever orders the two traversals go through the sets.
pub downstream-eq-upstream :
    (order order' : SetOrder) (ms : List LineageMapping) (g : LineageGraph)
    → build_from_mappings ms empty ≡ ok g
    → (object_id column_name object_id' column_name' : String)
    → lists (trace_downstream order g object_id column_name) (node_key object_id' column_name')
      ≡ lists (trace_upstream order' g object_id' column_name') (node_key object_id column_name)
downstream-eq-upstream order order' ms g built o c o' c' =
    let down = trace_downstream-Lists order ms g built o c in
    let up = trace_upstream-Lists order' ms g built o' c' in
    Bool-eq _ _
      (λ h.
        let (p, other) = lists_sound _ (node_key o' c') down h in
        lists_complete _ (node_key o c) up (Walk-reverse p) (λ e. other (sym e)))
      (λ h.
        let (p, other) = lists_sound _ (node_key o c) up h in
        lists_complete _ (node_key o' c') down (Walk-reverse p) (λ e. other (sym e)))
