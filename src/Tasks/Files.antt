-- ===== src/Tasks/Files.antt =====
-- ingestion_callbacks.py, `resolve_source_files`: which files of the landing directory a run takes.
-- The directory is the sorted list of its entries, and a missing one, which raises, is left out; the
-- processed hashes come from the platform, and `fnmatch` and the MD5 digest are parameters.
use Prim.Native.Char.{code}
use Prim.Native.String
use clean_data_platform_airf.Prelude.{
  ℕ, suc, ◌≡◌, refl, String, Bool, true, false, not, ◌&&◌, ◌||◌, some, List, [], ◌∷◌, ◌++◌,
  if◌then◌else◌, eqb, any, contains, contains-append, map, lower, format, is_text, non_empty, arith,
  All, Bool-cases, inl, inr, eq_refl,
}
use clean_data_platform_airf.Pipelines.Run.{PipelineRunFile}
use clean_data_platform_airf.Pipelines.Files.{Entry}

-- `raw_name.split(".")[-1]`: what stands after the last dot.
unfoldable pub last_part : String → String → String
last_part seen String.[] = seen
last_part seen (String.◌∷◌ c s) =
    if eqb (code c) 46 then last_part "" s else last_part (String.◌++◌ seen (String.◌∷◌ c "")) s

unfoldable pub clean_names : List String → List String
unfolding last_part lower
clean_names [] = []
clean_names (raw ∷ rest) =
    let others = clean_names rest in
    let clean = lower (last_part "" raw) in if is_text clean then clean ∷ others else others

-- The patterns of a run: the scope if there is one, else one for every object.
unfoldable pub include_patterns : List String → List String → List String
unfolding clean_names
include_patterns scope_include object_names =
    if non_empty scope_include
    then scope_include
    else if non_empty (clean_names object_names)
    then map (λ name. format ("*" ∷ name ∷ "*" ∷ [])) (clean_names object_names)
    else "*.*" ∷ []

abbrev pub exclude_patterns : List String → List String
exclude_patterns scope_exclude = if non_empty scope_exclude then scope_exclude else ".*" ∷ []

-- `path.name.startswith(".")`
abbrev pub is_hidden : String → Bool
is_hidden String.[] = false
is_hidden (String.◌∷◌ c s) = eqb (code c) 46

module _ (fnmatch : String → String → Bool) (md5 : String → String) where
  unfoldable pub matches : List String → Entry → Bool
  unfolding lower
  matches patterns e =
      any (λ pat. fnmatch (lower e.name) (lower pat) || fnmatch (lower e.rel) (lower pat)) patterns

  -- A file that the scope takes.
  abbrev pub in_scope : List String → List String → Entry → Bool
  in_scope patterns excluded e =
      e.is_file && not (is_hidden e.name) && matches patterns e && not (matches excluded e)

  -- What the task hands on, `status: PROCESSED` included.
  abbrev pub pending_file : (ℕ → String) → ℕ → ℕ → Entry → PipelineRunFile
  pending_file new_id n now e = record {
    id = new_id n;
    pipeline_run_id = "";
    file_path = e.path;
    file_name = e.name;
    file_size_bytes = e.size;
    mtime = e.mtime;
    hash_md5 = md5 e.content;
    status = "PROCESSED";
    processed_at = some now;
    updated_at = now;
  }

  -- The loop over the entries.
  unfoldable pub pending_files :
      (ℕ → String)
      → ℕ
      → ℕ
      → List String
      → List String
      → List String
      → List Entry
      → List PipelineRunFile
  unfolding matches
  pending_files new_id n now patterns excluded processed_hashes [] = []
  pending_files new_id n now patterns excluded processed_hashes (e ∷ entries) =
      let skipped = pending_files new_id n now patterns excluded processed_hashes entries in
      let taken = pending_files new_id (suc n) now patterns excluded processed_hashes entries in
      if in_scope patterns excluded e && not (contains (md5 e.content) processed_hashes)
      then pending_file new_id n now e ∷ taken
      else skipped

  -- Entries whose contents are all processed, as far as the scope takes them, give no file.
  abbrev AreKnown : List String → List String → List String → List Entry → Type 0
  AreKnown patterns excluded hashes entries =
      All (λ e. in_scope patterns excluded e ≡ true → contains (md5 e.content) hashes ≡ true)
        entries

  pending_files-known :
      (new_id : ℕ → String) (n now : ℕ) (patterns excluded hashes : List String)
      (entries : List Entry)
      → AreKnown patterns excluded hashes entries
      → pending_files new_id n now patterns excluded hashes entries ≡ []
  unfolding pending_files
  pending_files-known new_id n now patterns excluded hashes [] h = refl
  pending_files-known new_id n now patterns excluded hashes (e ∷ entries) h =
      ground (arith, h.0, pending_files-known new_id n now patterns excluded hashes entries h.1)

  -- No file is taken whose content was processed before.
  pub pending_files-new :
      (new_id : ℕ → String) (n now : ℕ) (patterns excluded hashes : List String)
      (entries : List Entry)
      → All
          (λ f. contains f.hash_md5 hashes ≡ false)
          (pending_files new_id n now patterns excluded hashes entries)
  unfolding pending_files
  pending_files-new new_id n now patterns excluded hashes [] = tt
  pending_files-new new_id n now patterns excluded hashes (e ∷ entries) =
      elim (Bool-cases (in_scope patterns excluded e && not (contains (md5 e.content) hashes))) [
        | inl fresh ↦
            rw fresh
              (ground arith, pending_files-new new_id (suc n) now patterns excluded hashes entries)
        | inr skip ↦ rw skip (pending_files-new new_id n now patterns excluded hashes entries)
      ]

  contains-cons :
      (h x : String) (xs : List String) → contains h xs ≡ true → contains h (x ∷ xs) ≡ true
  contains-cons h x xs known = ground arith

  AreKnown-wider :
      (patterns excluded hashes more : List String) (entries : List Entry)
      → ((h : String) → contains h hashes ≡ true → contains h more ≡ true)
      → AreKnown patterns excluded hashes entries
      → AreKnown patterns excluded more entries
  AreKnown-wider patterns excluded hashes more [] wider h = tt
  AreKnown-wider patterns excluded hashes more (e ∷ entries) wider h = (
    λ scope. wider (md5 e.content) (h.0 scope),
    AreKnown-wider patterns excluded hashes more entries wider h.1,
  )

  abbrev hashes_of : List PipelineRunFile → List String
  hashes_of files = map (λ f. f.hash_md5) files

  pending_files-AreKnown :
      (new_id : ℕ → String) (n now : ℕ) (patterns excluded hashes : List String)
      (entries : List Entry)
      → AreKnown patterns excluded
          (hashes_of (pending_files new_id n now patterns excluded hashes entries) ++ hashes)
          entries
  unfolding pending_files
  pending_files-AreKnown new_id n now patterns excluded hashes [] = tt
  pending_files-AreKnown new_id n now patterns excluded hashes (e ∷ entries) =
      elim (Bool-cases (in_scope patterns excluded e && not (contains (md5 e.content) hashes))) [
        | inl fresh ↦ (
          λ scope. rw fresh (ground (arith, eq_refl (md5 e.content))),
          AreKnown-wider patterns excluded
              (hashes_of (pending_files new_id (suc n) now patterns excluded hashes entries)
                ++ hashes)
              _ entries
              (λ (h : String) known. rw fresh (
                contains-cons h (md5 e.content)
                  (hashes_of (pending_files new_id (suc n) now patterns excluded hashes entries)
                    ++ hashes)
                  known))
              (pending_files-AreKnown new_id (suc n) now patterns excluded hashes entries),
        )
        | inr skip ↦ (
          λ scope. rw skip (
              ground (
                arith,
                contains-append (md5 e.content)
                    (hashes_of (pending_files new_id n now patterns excluded hashes entries))
                    hashes,
              )),
          AreKnown-wider patterns excluded _ _ entries (λ (h : String) known. rw skip known)
              (pending_files-AreKnown new_id n now patterns excluded hashes entries),
        )
      ]

  -- A second scan of the same directory, once the files of the first one count as processed, takes
  -- no file: everything in the scope was taken by the first scan or processed before it.
  pub second_scan :
      (new_id : ℕ → String) (n m now later : ℕ) (patterns excluded hashes : List String)
      (entries : List Entry)
      → pending_files new_id m later patterns excluded
          (map (λ f. f.hash_md5) (pending_files new_id n now patterns excluded hashes entries)
            ++ hashes)
          entries
        ≡ []
  second_scan new_id n m now later patterns excluded hashes entries =
      pending_files-known new_id m later patterns excluded _ entries
        (pending_files-AreKnown new_id n now patterns excluded hashes entries)
