-- ===== src/OpenApi/Writing.antt =====
-- Which file scripts/extract-openapi.py writes, and when it fails.
use local_transcription_serv.Prelude.{
  String, Bool, true, false, Option, none, some, List, [], ◌∷◌, ◌≡◌, ◌≢◌, ◌↔◌, ◌⊎◌, refl, ap, arith,
  text_eq, if◌then◌else◌, text_eq_self, text_eq_ne, Bool-cases, inl, inr, ◌<>◌,
}
use local_transcription_serv.Stt.{
  Json, null, boolean, integer, floating, string, array, object, Elements, no_elements, element,
  Members,
}
use local_transcription_serv.Transcripts.{Files}
use local_transcription_serv.FileWrite.{Write, written, refused, cut_off}
use local_transcription_serv.OpenApi.{
  Arguments, Surroundings, Ending, returned, usage_error, raised, find, has_get, are_strings, joins,
  schema_of, is_conflict, print_stats, document, write_schema, main,
}

-- The JSON list of some texts.
abbrev pub texts : List String → Elements
texts [] = no_elements
texts (s ∷ ss) = element (string s) (texts ss)

-- A value of which the title and the version can be asked: it is missing, or a dict.
abbrev pub IsInfo : Option Json → Type 0
IsInfo o = (o ≡ none) ⊎ ((m : Members) × (o ≡ some (object m)))

-- A value whose names can be counted and joined: it is missing, or a dict, a text or a list of texts.
abbrev pub IsPaths : Option Json → Type 0
IsPaths o =
    (o ≡ none)
    ⊎ ((m : Members) × (o ≡ some (object m)))
    ⊎ ((s : String) × (o ≡ some (string s)))
    ⊎ ((ss : List String) × (o ≡ some (array (texts ss))))

has_get-IsInfo : (o : Option Json) → (has_get o ≡ true) ↔ IsInfo o
has_get-IsInfo o = (there o, back o)
  where
    there : (o : Option Json) → has_get o ≡ true → IsInfo o
    there none h = inl refl
    there (some (object m)) h = inr (m, refl)
    there (some null) h = absurd (ground arith)
    there (some (boolean b)) h = absurd (ground arith)
    there (some (integer n)) h = absurd (ground arith)
    there (some (floating x)) h = absurd (ground arith)
    there (some (string s)) h = absurd (ground arith)
    there (some (array xs)) h = absurd (ground arith)

    back : (o : Option Json) → IsInfo o → has_get o ≡ true
    back o (inl e) = rw e refl
    back o (inr (m, e)) = rw e refl

are_strings-texts : (xs : Elements) → are_strings xs ≡ true → (ss : List String) × (xs ≡ texts ss)
are_strings-texts no_elements h = ([], refl)
are_strings-texts (element (string s) xs) h =
    let (ss, e) = are_strings-texts xs h in (s ∷ ss, ap (element (string s)) e)
are_strings-texts (element null xs) h = absurd (ground arith)
are_strings-texts (element (boolean b) xs) h = absurd (ground arith)
are_strings-texts (element (integer n) xs) h = absurd (ground arith)
are_strings-texts (element (floating x) xs) h = absurd (ground arith)
are_strings-texts (element (array ys) xs) h = absurd (ground arith)
are_strings-texts (element (object m) xs) h = absurd (ground arith)

texts-are_strings : (ss : List String) → are_strings (texts ss) ≡ true
texts-are_strings [] = refl
texts-are_strings (s ∷ ss) = texts-are_strings ss

joins-IsPaths : (o : Option Json) → (joins o ≡ true) ↔ IsPaths o
joins-IsPaths o = (there o, back o)
  where
    there : (o : Option Json) → joins o ≡ true → IsPaths o
    there none h = inl refl
    there (some (object m)) h = inr (inl (m, refl))
    there (some (string s)) h = inr (inr (inl (s, refl)))
    there (some (array xs)) h =
        let (ss, e) = are_strings-texts xs h in inr (inr (inr (ss, ap (λ ys. some (array ys)) e)))
    there (some null) h = absurd (ground arith)
    there (some (boolean b)) h = absurd (ground arith)
    there (some (integer n)) h = absurd (ground arith)
    there (some (floating x)) h = absurd (ground arith)

    back : (o : Option Json) → IsPaths o → joins o ≡ true
    back o (inl e) = rw e refl
    back o (inr (inl (m, e))) = rw e refl
    back o (inr (inr (inl (s, e)))) = rw e refl
    back o (inr (inr (inr (ss, e)))) = rw e (texts-are_strings ss)

is_usage_error : Ending → Bool
is_usage_error usage_error = true
is_usage_error _ = false

module _ (e : Surroundings) (args : Arguments) (files : Files) where
  -- The output file holds a text, and no other file is touched.
  abbrev Holds : String → Files → Type 0
  Holds text after =
      (after args.out ≡ some text) × ((path : String) → path ≢ args.out → after path ≡ files path)

  -- The statistics of a schema can be printed.
  abbrev pub Printable : Members → Type 0
  Printable m = IsInfo (find "info" m) × IsPaths (find "paths" m) × (e.prints ≡ true)

  -- The document is the schema.
  abbrev pub Writes : Ending × Files → Type 0
  Writes (ending, after) =
      (m : Members) × (schema_of e args ≡ some m)
      × (e.write args.out (document e m) ≡ written)
      × Holds (e.dumps (object m) <> "\n") after
      × ((ending ≡ returned) ↔ Printable m)

  -- Writing the document has failed after the output file was emptied.
  abbrev pub Breaks : Ending × Files → Type 0
  Breaks (ending, after) =
      (m : Members) × (left : String) × (schema_of e args ≡ some m)
      × (e.write args.out (document e m) ≡ cut_off left)
      × Holds left after
      × (ending ≡ raised)

  -- Nothing is written, and the script does not return.
  abbrev pub Fails : Ending × Files → Type 0
  Fails (ending, after) = (ending ≢ returned) × (after ≡ files)

  abbrev pub Ended : Ending × Files → Type 0
  Ended r = Writes r ⊎ Breaks r ⊎ Fails r

  usage_error-ne-returned : usage_error ≢ returned
  usage_error-ne-returned h = cc

  raised-ne-returned : raised ≢ returned
  raised-ne-returned h = cc

  print_stats-Printable : (m : Members) → (print_stats e m ≡ returned) ↔ Printable m
  unfolding print_stats
  print_stats-Printable m =
      let (info_there, info_back) = has_get-IsInfo (find "info" m) in
      let (paths_there, paths_back) = joins-IsPaths (find "paths" m) in
      (
        λ h. (info_there (ground arith), paths_there (ground arith), ground arith),
        λ h.
            let info = info_back h.0 in
            let paths = paths_back h.1 in let prints = h.2 in ground arith,
      )

  write_schema-Ended :
      (o : Option Members) → schema_of e args ≡ o → Ended (write_schema e args files o)
  unfolding write_schema
  write_schema-Ended none h = inr (inr (raised-ne-returned, refl))
  write_schema-Ended (some m) h = by_write (e.write args.out (document e m)) refl
    where
      holds :
          (text : String)
          → Holds text (λ path. if text_eq path args.out then some text else files path)
      holds text = (rw (text_eq_self args.out) refl, λ path n. rw (text_eq_ne path args.out n) refl)

      by_write :
          (o : Write)
          → e.write args.out (document e m) ≡ o
          → Ended (write_schema e args files (some m))
      by_write written w = rw w (inl (m, h, w, holds (document e m), print_stats-Printable m))
      by_write refused w = rw w (inr (inr (raised-ne-returned, refl)))
      by_write (cut_off left) w = rw w (inr (inl (m, left, h, w, holds left, refl)))

  write_schema-ne-usage_error : (o : Option Members) → (write_schema e args files o).0 ≢ usage_error
  unfolding write_schema print_stats
  write_schema-ne-usage_error none h = cc
  write_schema-ne-usage_error (some m) h = ground arith

  -- The script ends in one of three ways. It writes the schema as JSON to the output file, touches no
  -- other file, and then returns 0 exactly if stdout takes the statistics and the schema has them: its
  -- "info" is missing or a dict, and its "paths" are missing, a dict, a text or a list of texts. Or
  -- writing fails after the output file was emptied: it raises, the file holds what was written until
  -- then, and no other file is touched. Or it does not return 0 and changes no file. It ends with a
  -- usage error exactly if a URL is given together with `--from-app`, where an empty URL counts as
  -- none.
  pub main-Ended :
      Ended (main e args files)
      × (((main e args files).0 ≡ usage_error) ↔ (is_conflict args ≡ true))
  unfolding main
  main-Ended = elim (Bool-cases (is_conflict args)) [
    | inl c ↦ rw (c, main) (inr (inr (usage_error-ne-returned, refl)), (λ h. refl, λ h. refl))
    | inr c ↦
        rw (c, main)
          (
            write_schema-Ended (schema_of e args) refl,
            (λ h. absurd (write_schema-ne-usage_error (schema_of e args) h), λ h. cc),
          )
  ]
