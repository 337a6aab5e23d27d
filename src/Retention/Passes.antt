-- ===== src/Retention/Passes.antt =====
-- The two passes of `select_for_deletion` of src/local_transcription_service/retention.py: the
-- files past their term, and the oldest ones over the size cap.
use native.Mathlib.Decide.{dec_le}
use local_transcription_serv.Prelude.{
  ℕ, ◌+◌, ◌-◌, ◌≤◌, ◌<◌, Bool, true, false, List, [], ◌∷◌, ◌++◌, ◌≡◌, refl, ap, sym, ◌⊎◌, inl, inr,
  leb, All, All-mono, sorted, IsSorted, sorted-IsSorted, sorted_of_IsSorted, if◌then◌else◌,
  Bool-cases, arith,
}
use local_transcription_serv.Retention.{
  TrashEntry, RetentionPolicy, by_mtime, total, is_expired, split_expired, oldest_until, over_cap,
}

-- Each selected file has a reason: it is expired, or from it on the files exceed the cap.
abbrev pub Needed : RetentionPolicy → ℕ → List TrashEntry → List TrashEntry → Type 0
Needed p now [] kept = Unit {0}
Needed p now (e ∷ selected) kept =
    ((is_expired p now e ≡ true) ⊎ (p.max_bytes < total (e ∷ selected) + total kept))
    × Needed p now selected kept

pub files-IsSorted : (files : List TrashEntry) → IsSorted by_mtime (sorted by_mtime files)
files-IsSorted = sorted-IsSorted by_mtime (λ x y h. ground arith) (λ x y z h k. ground arith)

pub total-append : (xs ys : List TrashEntry) → total (xs ++ ys) ≡ total xs + total ys
unfolding total
total-append [] ys = omega arith
total-append (x ∷ xs) ys = omega (arith, total-append xs ys)

total-cons : (e : TrashEntry) (es : List TrashEntry) → total (e ∷ es) ≡ e.size + total es
unfolding total
total-cons e es = refl

pub All-suffix {ℓ κ} : {A : Type ℓ} (P : A → Type κ) (xs ys : List A) → All P (xs ++ ys) → All P ys
All-suffix P [] ys h = h
All-suffix P (x ∷ xs) ys h = All-suffix P xs ys h.1

pub IsSorted-suffix :
    (xs ys : List TrashEntry) → IsSorted by_mtime (xs ++ ys) → IsSorted by_mtime ys
IsSorted-suffix [] ys s = s
IsSorted-suffix (x ∷ xs) ys s = IsSorted-suffix xs ys s.1

pub over_cap_fits :
    (max_bytes : ℕ) (e : TrashEntry) (es : List TrashEntry)
    → IsSorted by_mtime (e ∷ es)
    → total (e ∷ es) ≤ max_bytes
    → over_cap max_bytes (e ∷ es) ≡ []
unfolding over_cap
over_cap_fits max_bytes e es s h = rw (sorted_of_IsSorted by_mtime (e ∷ es) s) (ground arith)

over_cap_exceeds :
    (max_bytes : ℕ) (e : TrashEntry) (es : List TrashEntry)
    → IsSorted by_mtime (e ∷ es)
    → max_bytes < total (e ∷ es)
    → over_cap max_bytes (e ∷ es) ≡ oldest_until (total (e ∷ es) - max_bytes) 0 (e ∷ es)
unfolding over_cap
over_cap_exceeds max_bytes e es s h = rw (sorted_of_IsSorted by_mtime (e ∷ es) s) (ground arith)

-- On a sorted list the first pass cuts: the expired files come first.
pub record IsSplit (expired : TrashEntry → Bool) (files selected survivors : List TrashEntry)
    : Type 0 where
  pub whole : files ≡ selected ++ survivors
  pub old : All (λ e. expired e ≡ true) selected
  pub young : All (λ e. expired e ≡ false) survivors

pub split_expired_young :
    (expired : TrashEntry → Bool) (files : List TrashEntry)
    → All (λ e. expired e ≡ false) files
    → split_expired expired files ≡ ([], files)
unfolding split_expired
split_expired_young expired [] h = refl
split_expired_young expired (e ∷ files) h = rw (h.0, split_expired_young expired files h.1)

is_expired_younger :
    (p : RetentionPolicy) (now : ℕ) (e f : TrashEntry)
    → is_expired p now e ≡ false
    → by_mtime e f ≡ true
    → is_expired p now f ≡ false
unfolding is_expired
is_expired_younger p now e f h k = ground arith

pub split_expired-IsSplit :
    (p : RetentionPolicy) (now : ℕ) (files : List TrashEntry)
    → IsSorted by_mtime files
    → let (selected, survivors) = split_expired (is_expired p now) files in
      IsSplit (is_expired p now) files selected survivors
unfolding split_expired
split_expired-IsSplit p now [] s = record { whole = refl; old = tt; young = tt }
split_expired-IsSplit p now (e ∷ files) s = elim (Bool-cases (is_expired p now e)) [
  | inl f ↦
      let rest = split_expired-IsSplit p now files s.1 in
      rw f (record { whole = ap (◌∷◌ e) rest.whole; old = (f, rest.old); young = rest.young })
  | inr f ↦
      let young = All-mono _ _ files (λ g h. is_expired_younger p now e g f h) s.0 in
      rw (f, split_expired_young (is_expired p now) files young)
        (record { whole = refl; old = tt; young = (f, young) })
]

-- The files that the second pass keeps.
kept_from : ℕ → ℕ → List TrashEntry → List TrashEntry
kept_from target freed [] = []
kept_from target freed (e ∷ es) =
    let rest = kept_from target (freed + e.size) es in if leb target freed then e ∷ es else rest

oldest_until-append-kept_from :
    (target freed : ℕ) (es : List TrashEntry)
    → oldest_until target freed es ++ kept_from target freed es ≡ es
unfolding oldest_until kept_from
oldest_until-append-kept_from target freed [] = refl
oldest_until-append-kept_from target freed (e ∷ es) =
    ground (arith, oldest_until-append-kept_from target (freed + e.size) es)

kept_from-total :
    (target freed : ℕ) (es : List TrashEntry)
    → target ≤ freed + total es
    → total (kept_from target freed es) + target ≤ freed + total es
unfolding kept_from total
kept_from-total target freed [] h = omega arith
kept_from-total target freed (e ∷ es) h = ground (arith, kept_from-total target (freed + e.size) es)

oldest_until_enough :
    (target freed : ℕ) (e : TrashEntry) (es : List TrashEntry)
    → target ≤ freed
    → oldest_until target freed (e ∷ es) ≡ []
unfolding oldest_until
oldest_until_enough target freed e es h = ground arith

oldest_until_more :
    (target freed : ℕ) (e : TrashEntry) (es : List TrashEntry)
    → freed < target
    → oldest_until target freed (e ∷ es) ≡ e ∷ oldest_until target (freed + e.size) es
unfolding oldest_until
oldest_until_more target freed e es h = ground arith

kept_from_more :
    (target freed : ℕ) (e : TrashEntry) (es : List TrashEntry)
    → freed < target
    → kept_from target freed (e ∷ es) ≡ kept_from target (freed + e.size) es
unfolding kept_from
kept_from_more target freed e es h = ground arith

oldest_until-Needed :
    (p : RetentionPolicy) (now target freed : ℕ) (es : List TrashEntry)
    → target + p.max_bytes ≡ freed + total es
    → Needed p now (oldest_until target freed es) (kept_from target freed es)
oldest_until-Needed p now target freed [] h = unfold oldest_until in tt
oldest_until-Needed p now target freed (e ∷ es) h = elim (dec_le target freed) [
  | yes enough ↦ rw (oldest_until_enough target freed e es enough) tt
  | no more ↦ rw (oldest_until_more target freed e es (omega arith)) (
      rw (kept_from_more target freed e es (omega arith)) (
        inr (over more),
        oldest_until-Needed p now target (freed + e.size) es (omega (arith, total-cons e es)),
      ))
]
  where
    over :
        ¬ (target ≤ freed)
        → p.max_bytes
          < total (e ∷ oldest_until target (freed + e.size) es)
            + total (kept_from target (freed + e.size) es)
    over more = omega (
      arith,
      total-cons e es,
      total-cons e (oldest_until target (freed + e.size) es),
      total-append (oldest_until target (freed + e.size) es) (kept_from target (freed + e.size) es),
      ap total (oldest_until-append-kept_from target (freed + e.size) es),
    )

-- The second pass cuts the survivors, which are all within their term.
pub record CutsCap (p : RetentionPolicy) (now : ℕ) (survivors selected kept : List TrashEntry)
    : Type 0 where
  pub whole : survivors ≡ selected ++ kept
  pub fits : total kept ≤ p.max_bytes
  pub needed : Needed p now selected kept

pub over_cap-CutsCap :
    (p : RetentionPolicy) (now : ℕ) (survivors : List TrashEntry)
    → IsSorted by_mtime survivors
    → (kept : List TrashEntry) × CutsCap p now survivors (over_cap p.max_bytes survivors) kept
over_cap-CutsCap p now [] s =
    unfold over_cap total in ([], record { whole = refl; fits = omega arith; needed = tt })
over_cap-CutsCap p now (e ∷ es) s = elim (dec_le (total (e ∷ es)) p.max_bytes) [
  | yes h ↦ (
    e ∷ es,
    rw (over_cap_fits p.max_bytes e es s h) (record { whole = refl; fits = h; needed = tt }),
  )
  | no h ↦ (
    kept_from target 0 (e ∷ es),
    rw (over_cap_exceeds p.max_bytes e es s (omega arith)) (record {
      whole = sym (oldest_until-append-kept_from target 0 (e ∷ es));
      fits = omega (arith, kept_from-total target 0 (e ∷ es));
      needed = oldest_until-Needed p now target 0 (e ∷ es) (omega arith);
    }),
  )
]
  where
    target : ℕ
    target = total (e ∷ es) - p.max_bytes

pub Needed-append :
    (p : RetentionPolicy) (now : ℕ) (old selected kept : List TrashEntry)
    → All (λ e. is_expired p now e ≡ true) old
    → Needed p now selected kept
    → Needed p now (old ++ selected) kept
Needed-append p now [] selected kept h k = k
Needed-append p now (e ∷ old) selected kept h k =
    (inl h.0, Needed-append p now old selected kept h.1 k)
