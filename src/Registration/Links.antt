-- ===== src/Registration/Links.antt =====
-- register_pipeline.py and sql_pipeline_repository.py: what linking leaves in `pipeline_objects`.
use clean_data_platform_airf.Prelude.{
  ◌≡◌, refl, String, true, false, ◌&&◌, Option, none, some, List, [], ◌∷◌, ◌++◌, ◌==◌, arith,
  any-append, All, inl, inr, Bool-cases, eq_iff, eq_refl, sym, filter, filter-append, non_empty, ap,
  ◌∙◌, append_nil,
}
use clean_data_platform_airf.Objects.Element.{DataObject}
use clean_data_platform_airf.Registration.Repository.Reading.{
  PipelineObjectRow, is_linked, link_object,
}
use clean_data_platform_airf.Registration.Destinations.{first_named, link_matched, link_names}

link_object-linked :
    (pid oid role : String) (links : List PipelineObjectRow)
    → is_linked pid oid (link_object pid oid role links) ≡ true
unfolding link_object
link_object-linked pid oid role links = elim (Bool-cases (is_linked pid oid links)) [
  | inl e ↦ rw (e, e) refl
  | inr e ↦ ground (
    arith,
    any-append (λ (l : PipelineObjectRow). l.pipeline_id == pid && l.object_id == oid) links
        (record { pipeline_id = pid; object_id = oid; role_in_pipeline = role } ∷ []),
    eq_refl pid,
    eq_refl oid,
  )
]

-- The rows of one pair of a pipeline and an object.
abbrev pub links_of : String → String → List PipelineObjectRow → List PipelineObjectRow
links_of pid oid links = filter (λ l. l.pipeline_id == pid && l.object_id == oid) links

is_linked-links_of :
    (pid oid : String) (links : List PipelineObjectRow)
    → is_linked pid oid links ≡ non_empty (links_of pid oid links)
is_linked-links_of pid oid [] = refl
is_linked-links_of pid oid (l ∷ ls) = ground (arith, is_linked-links_of pid oid ls)

other_pair :
    (pid oid a b : String) (links : List PipelineObjectRow)
    → is_linked a b links ≡ true
    → is_linked pid oid links ≡ false
    → (pid == a && oid == b) ≡ false
other_pair pid oid a b links h e = elim (Bool-cases (pid == a && oid == b)) [
  | inr other ↦ other
  | inl same ↦
      let pa : pid ≡ a = ground (arith, eq_iff pid a) in
      let ob : oid ≡ b = ground (arith, eq_iff oid b) in
      let both : is_linked pid oid links ≡ is_linked a b links =
        ap (λ x. is_linked x oid links) pa ∙ ap (λ y. is_linked a y links) ob in
      absurd (ground (arith, both))
]

unmatched_row :
    (a b : String) (links : List PipelineObjectRow) (l : PipelineObjectRow)
    → (l.pipeline_id == a && l.object_id == b) ≡ false
    → links_of a b (links ++ l ∷ []) ≡ links_of a b links
unmatched_row a b links l h =
    filter-append (λ (k : PipelineObjectRow). k.pipeline_id == a && k.object_id == b) links (l ∷ [])
    ∙ rw h (append_nil (links_of a b links))

-- Linking writes nothing at a pair that is linked.
link_object-keeps :
    (pid oid role a b : String) (links : List PipelineObjectRow)
    → is_linked a b links ≡ true
    → links_of a b (link_object pid oid role links) ≡ links_of a b links
unfolding link_object
link_object-keeps pid oid role a b links h = elim (Bool-cases (is_linked pid oid links)) [
  | inl e ↦ rw e refl
  | inr e ↦ rw e (
      unmatched_row a b links
        (record { pipeline_id = pid; object_id = oid; role_in_pipeline = role })
        (other_pair pid oid a b links h e))
]

link_matched-keeps :
    (pid role a b : String) (o : Option DataObject) (links : List PipelineObjectRow)
    → is_linked a b links ≡ true
    → links_of a b (link_matched pid role o links) ≡ links_of a b links
link_matched-keeps pid role a b none links h = refl
link_matched-keeps pid role a b (some o) links h = link_object-keeps pid o.id role a b links h

-- A pair that is linked keeps its row, role and all, whatever is linked after it.
pub link_names-keeps :
    (pid role a b : String) (objects : List DataObject) (names : List String)
    (links : List PipelineObjectRow)
    → is_linked a b links ≡ true
    → links_of a b (link_names pid role objects names links) ≡ links_of a b links
unfolding link_names
link_names-keeps pid role a b objects [] links h = refl
link_names-keeps pid role a b objects (name ∷ names) links h =
    let next = link_matched pid role (first_named name objects) links in
    let kept : links_of a b next ≡ links_of a b links =
      link_matched-keeps pid role a b (first_named name objects) links h in
    let linked : is_linked a b next ≡ true =
      is_linked-links_of a b next ∙ ap non_empty kept ∙ sym (is_linked-links_of a b links) ∙ h in
    link_names-keeps pid role a b objects names next linked ∙ kept

-- The object that a name matches, if there is one, is linked.
abbrev pub IsLinked : String → List PipelineObjectRow → Option DataObject → Type 0
IsLinked pid links none = Unit
IsLinked pid links (some o) = is_linked pid o.id links ≡ true

link_names-kept :
    (pid role a b : String) (objects : List DataObject) (names : List String)
    (links : List PipelineObjectRow)
    → is_linked a b links ≡ true
    → is_linked a b (link_names pid role objects names links) ≡ true
link_names-kept pid role a b objects names links h =
    is_linked-links_of a b (link_names pid role objects names links)
    ∙ ap non_empty (link_names-keeps pid role a b objects names links h)
    ∙ sym (is_linked-links_of a b links)
    ∙ h

matched-IsLinked :
    (pid role : String) (objects : List DataObject) (o : Option DataObject) (names : List String)
    (links : List PipelineObjectRow)
    → IsLinked pid (link_names pid role objects names (link_matched pid role o links)) o
matched-IsLinked pid role objects none names links = tt
matched-IsLinked pid role objects (some o) names links =
    link_names-kept pid role pid o.id objects names (link_object pid o.id role links)
      (link_object-linked pid o.id role links)

-- After linking, every name that an object of the asset goes by has its first such object linked to
-- the pipeline.
pub link_names-IsLinked :
    (pid role : String) (objects : List DataObject) (names : List String)
    (links : List PipelineObjectRow)
    → All
        (λ name. IsLinked pid (link_names pid role objects names links) (first_named name objects))
        names
unfolding link_names
link_names-IsLinked pid role objects [] links = tt
link_names-IsLinked pid role objects (name ∷ names) links = (
  matched-IsLinked pid role objects (first_named name objects) names links,
  link_names-IsLinked pid role objects names
      (link_matched pid role (first_named name objects) links),
)
