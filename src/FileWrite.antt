-- ===== src/FileWrite.antt =====
-- What becomes of `mkdir` of a path's parent and `Path.write_text`, as worker.py of
-- src/local_transcription_service and scripts/extract-openapi.py call them. Only files are
-- represented: directories that were made before a failure are not.
use local_transcription_serv.Prelude.{String}

-- It returns; or it raises before the file is opened, which stays as it was; or it raises after the
-- file has been emptied, and leaves what was written until then.
pub data Write : Type 0 where
  written : Write
  refused : Write
  cut_off : (left : String) → Write

-- What follows in each case.
abbrev pub on_write : {A : Type 0} → Write → A → A → (String → A) → A
on_write written whole untouched partial = whole
on_write refused whole untouched partial = untouched
on_write (cut_off left) whole untouched partial = partial left

pub on_write-elim :
    {A : Type 0} (P : A → Type 0) (o : Write) {whole untouched : A} {partial : String → A}
    → P whole
    → P untouched
    → ((left : String) → P (partial left))
    → P (on_write o whole untouched partial)
on_write-elim P written p q r = p
on_write-elim P refused p q r = q
on_write-elim P (cut_off left) p q r = r left
