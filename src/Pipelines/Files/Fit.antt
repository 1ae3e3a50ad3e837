-- ===== src/Pipelines/Files/Fit.antt =====
-- file_watermark_resolver.py: which files are returned.
use clean_data_platform_airf.Prelude.{
  ℕ, suc, ◌≡◌, refl, String, Bool, true, false, Option, none, some, List, [], ◌∷◌, filter, contains,
  lower, ltb, length, arith, All, eq_iff, eq_refl, Bool-cases, inl, inr,
}
use clean_data_platform_airf.Errors.{ok, >>=-eq-ok}
use clean_data_platform_airf.Pipelines.Run.{PipelineRunFile}
use clean_data_platform_airf.Pipelines.Table.{Runs, find_latest_by_pipeline_id}
use clean_data_platform_airf.Pipelines.Files.{
  Entry, find_processed_hashes, watermark_after, is_older, scan_directory, build_pending_files,
  extensions, validate_homogeneity, resolved, resolve_pending_files, is_candidate,
}

module _ (fnmatch : String → String → Bool) (md5 suffix : String → String)
    (shown_set : List String → String) where
  -- The content is new, and the file is not older than the watermark.
  abbrev pub IsNew : List String → Option ℕ → PipelineRunFile → Type 0
  IsNew hashes watermark f =
      (contains f.hash_md5 hashes ≡ false) × (is_older watermark f.mtime ≡ false)

  -- A missing directory has no files.
  abbrev pub AreOnlyFrom : Option (List Entry) → List PipelineRunFile → Type 0
  AreOnlyFrom none found = found ≡ []
  AreOnlyFrom (some entries) found = Unit

  build_pending_files-IsNew :
      (new_id : ℕ → String) (n now : ℕ) (run_id : String) (hashes : List String)
      (watermark : Option ℕ) (es : List Entry)
      → All (λ e. is_older watermark e.mtime ≡ false) es
      → All
          (IsNew hashes watermark)
          (build_pending_files fnmatch md5 suffix shown_set new_id n now es hashes run_id)
  unfolding build_pending_files
  build_pending_files-IsNew new_id n now run_id hashes watermark [] h = tt
  build_pending_files-IsNew new_id n now run_id hashes watermark (e ∷ es) h =
      elim (Bool-cases (contains (md5 e.content) hashes)) [
        | inl known ↦
            rw known (build_pending_files-IsNew new_id n now run_id hashes watermark es h.1)
        | inr fresh ↦ rw fresh (
          (fresh, h.0),
          build_pending_files-IsNew new_id (suc n) now run_id hashes watermark es h.1,
        )
      ]

  scan_directory-young :
      (patterns excluded : List String) (watermark : Option ℕ) (entries : List Entry)
      → All
          (λ e. is_older watermark e.mtime ≡ false)
          (filter (is_candidate fnmatch md5 suffix shown_set patterns excluded watermark) entries)
  scan_directory-young patterns excluded watermark [] = tt
  scan_directory-young patterns excluded watermark (e ∷ entries) =
      elim (Bool-cases (is_candidate fnmatch md5 suffix shown_set patterns excluded watermark e)) [
        | inl taken ↦
            rw taken (ground arith, scan_directory-young patterns excluded watermark entries)
        | inr left ↦ rw left (scan_directory-young patterns excluded watermark entries)
      ]

  abbrev extensions_of : List PipelineRunFile → List String
  extensions_of files = extensions fnmatch md5 suffix shown_set files

  -- The extension of a file, in lower case.
  abbrev pub extension_of : PipelineRunFile → String
  extension_of f = lower (suffix f.file_path)

  contains-one :
      (x y : String) (xs : List String)
      → ltb 1 (length xs) ≡ false
      → contains x xs ≡ true
      → contains y xs ≡ true
      → y ≡ x
  contains-one x y [] few hx hy = cc
  contains-one x y (a ∷ []) few hx hy = ground (arith, eq_iff a x, eq_iff a y)
  contains-one x y (a ∷ b ∷ xs) few hx hy = absurd (ground arith)

  empty_of : (xs : List String) → ltb 1 (suc (length xs)) ≡ false → xs ≡ []
  empty_of [] h = refl
  empty_of (y ∷ ys) h = absurd (ground arith)

  extensions-none :
      (x : String) (files : List PipelineRunFile)
      → extensions_of files ≡ []
      → All (λ f. extension_of f ≡ x) files
  unfolding extensions
  extensions-none x [] h = tt
  extensions-none x (f ∷ files) h =
      elim (Bool-cases (contains (extension_of f) (extensions_of files))) [
        | inl known ↦ absurd (ground arith)
        | inr other ↦ absurd (ground arith)
      ]

  extensions-one :
      (x : String) (files : List PipelineRunFile)
      → ltb 1 (length (extensions_of files)) ≡ false
      → contains x (extensions_of files) ≡ true
      → All (λ f. extension_of f ≡ x) files
  unfolding extensions
  extensions-one x [] few h = tt
  extensions-one x (f ∷ files) few h =
      elim (Bool-cases (contains (extension_of f) (extensions_of files))) [
        | inl known ↦
            let few' : ltb 1 (length (extensions_of files)) ≡ false = ground arith in
            let h' : contains x (extensions_of files) ≡ true = ground arith in
            (
              contains-one x (extension_of f) (extensions_of files) few' h' known,
              extensions-one x files few' h',
            )
        | inr other ↦
            let empty : extensions_of files ≡ [] = empty_of (extensions_of files) (ground arith) in
            (ground (arith, eq_iff (extension_of f) x), extensions-none x files empty)
      ]

  extensions-contains :
      (f : PipelineRunFile) (files : List PipelineRunFile)
      → contains (extension_of f) (extensions_of (f ∷ files)) ≡ true
  unfolding extensions
  extensions-contains f files = ground (arith, eq_refl (extension_of f))

  validate_homogeneity-one :
      (files : List PipelineRunFile)
      → validate_homogeneity fnmatch md5 suffix shown_set files ≡ ok tt
      → (ext : String) × All (λ f. extension_of f ≡ ext) files
  unfolding validate_homogeneity
  validate_homogeneity-one [] h = ("", tt)
  validate_homogeneity-one (f ∷ files) h = (
    extension_of f,
    extensions-one (extension_of f) (f ∷ files) (ground arith) (extensions-contains f files),
  )

  -- What is returned: the content of every file is new to the pipeline, none is older than the end of
  -- its latest run, if that has succeeded, and all have one extension; without a directory there are
  -- no files.
  pub resolve_pending_files-AreFit :
      (new_id : ℕ → String) (now : ℕ) (p run_id : String) (include exclude : List String)
      (rows : Runs) (files : List PipelineRunFile) (entries : Option (List Entry))
      (found : List PipelineRunFile)
      → resolve_pending_files fnmatch md5 suffix shown_set new_id now p run_id include exclude rows
          files entries
        ≡ ok found
      → All
          (IsNew
            (find_processed_hashes p rows files)
            (watermark_after (find_latest_by_pipeline_id p rows)))
          found
        × ((ext : String) × All (λ f. extension_of f ≡ ext) found)
        × AreOnlyFrom entries found
  unfolding resolve_pending_files scan_directory
  resolve_pending_files-AreFit new_id now p run_id include exclude rows files none found h =
      let same : [] ≡ found = ground arith in rw (← same) (tt, ("", tt), refl)
  resolve_pending_files-AreFit new_id now p run_id include exclude rows files (some entries) found
        h =
      let pending =
        resolved fnmatch md5 suffix shown_set new_id now p run_id include exclude rows files
          entries in
      let (x, valid, h') =
        >>=-eq-ok _ (validate_homogeneity fnmatch md5 suffix shown_set pending) h in
      let same : pending ≡ found = ground arith in
      rw (← same) (
        build_pending_files-IsNew new_id 0 now run_id (find_processed_hashes p rows files)
            (watermark_after (find_latest_by_pipeline_id p rows)) _
            (scan_directory-young _ exclude (watermark_after (find_latest_by_pipeline_id p rows))
              entries),
        validate_homogeneity-one pending valid,
        tt,
      )
