-- ===== src/Retention/Exit.antt =====
-- The exit codes and the output of `amain` in src/local_transcription_service/retention.py.
use local_transcription_serv.Prelude.{
  ℕ, zero, suc, ◌⊎◌, subst, String, Bool, true, false, Option, ◌≡◌, ◌≢◌, refl, ◌∙◌, ap, sym,
  text_eq, text_eq_iff, text_eq_self, text_eq_ne, some, Option-cases, Bool-cases, inl, inr,
  if◌then◌else◌,
}
use local_transcription_serv.Retention.{RetentionPolicy}
use local_transcription_serv.Retention.Cleanup.{
  TrashDir, missing, uncreatable, not_directory, unreadable, directory, Unlink, CleanupReport,
  Outcome, report, not_a_directory_error, io_error, run_cleanup, cleanup_dir,
}
use local_transcription_serv.Retention.Command.{
  Environment, Resolved, resolved, config_error, runtime_error, resolve_data_dir, resolve_policy,
  CliRun, Exit, exited, raised, summary, finish, amain,
}

-- `run_cleanup` ends with a report, or it changes nothing.
run_cleanup_ends :
    (policy : RetentionPolicy) (dry_run : Bool) (now : ℕ) (unlink : String → Unlink) (t : TrashDir)
    → let (outcome, after) = run_cleanup policy dry_run now unlink t in
      ((r : CleanupReport) × (outcome ≡ report r))
      ⊎ ((outcome ≡ not_a_directory_error) × (after ≡ t))
      ⊎ ((outcome ≡ io_error) × (after ≡ t))
unfolding run_cleanup cleanup_dir
run_cleanup_ends policy dry_run now unlink missing = inl (_, refl)
run_cleanup_ends policy dry_run now unlink uncreatable = inr (inr (refl, refl))
run_cleanup_ends policy dry_run now unlink not_directory = inr (inl (refl, refl))
run_cleanup_ends policy dry_run now unlink unreadable = inr (inr (refl, refl))
run_cleanup_ends policy true now unlink (directory children) = inl (_, refl)
run_cleanup_ends policy false now unlink (directory children) = inl (_, refl)

module _ (env : Environment) (flag : Option String) (dry_run : Bool) (now : ℕ)
    (unlink : String → Unlink) (trash : String → TrashDir) where
  -- A clean-up of the trash under the data directory, and nowhere else, with its report, after which
  -- stdout holds a text.
  pub record Cleaned (run : CliRun) (data_dir : String) (policy : RetentionPolicy)
      (r : CleanupReport) (text : String) : Type 0 where
    pub data_dir_found : resolve_data_dir env flag ≡ resolved data_dir
    pub policy_found : resolve_policy env ≡ some policy
    pub cleaned :
        run_cleanup policy dry_run now unlink (trash data_dir) ≡ (report r, run.trash data_dir)
    pub printed : run.stdout ≡ text
    pub elsewhere : (dir : String) → dir ≢ data_dir → run.trash dir ≡ trash dir

  -- Nothing is printed on stdout, and no trash directory is changed.
  abbrev pub Untouched : CliRun → Type 0
  Untouched run = (run.stdout ≡ "") × ((dir : String) → run.trash dir ≡ trash dir)

  -- What a run comes to, by its exit.
  abbrev pub Ended : Exit → CliRun → Type 0
  Ended (exited zero) run =
      (data_dir : String) × (policy : RetentionPolicy) × (r : CleanupReport) × Cleaned run data_dir
        policy r (summary env r)
  Ended (exited (suc n)) run = Untouched run
  Ended raised run =
      ((resolve_data_dir env flag ≡ runtime_error) × Untouched run)
      ⊎ ((part : String) × (env.stdout_error ≡ some part)
          × (data_dir : String) × (policy : RetentionPolicy) × (r : CleanupReport) × Cleaned run
              data_dir policy r part)

  module _ (data_dir : String) (policy : RetentionPolicy)
      (e : resolve_data_dir env flag ≡ resolved data_dir)
      (f : resolve_policy env ≡ some policy) where
    abbrev cleanup : Outcome × TrashDir
    cleanup = run_cleanup policy dry_run now unlink (trash data_dir)

    abbrev ran : Exit × String → CliRun
    ran (exit, stdout) = record {
      exit = exit;
      stdout = stdout;
      trash = λ d. if text_eq d data_dir then cleanup.1 else trash d;
    }

    ran-Cleaned :
        (x : Exit × String) (r : CleanupReport)
        → cleanup.0 ≡ report r
        → Cleaned (ran x) data_dir policy r x.1
    ran-Cleaned x r h = record {
      data_dir_found = e;
      policy_found = f;
      cleaned = rw (text_eq_self data_dir) (λ i. (h i, cleanup.1));
      printed = refl;
      elsewhere = λ dir n. rw (text_eq_ne dir data_dir n) refl;
    }

    ran-unchanged :
        (x : Exit × String)
        → cleanup.1 ≡ trash data_dir
        → (dir : String) → (ran x).trash dir ≡ trash dir
    ran-unchanged x h dir = elim (Bool-cases (text_eq dir data_dir)) [
      | inl g ↦ rw g (h ∙ ap trash (sym ((text_eq_iff dir data_dir).0 g)))
      | inr g ↦ rw g refl
    ]

    abbrev Finished : Exit × String → Type 0
    Finished x = Ended x.0 (ran x)

    finished :
        (o : Outcome) (x : Exit × String)
        → cleanup.0 ≡ o
        → finish env o ≡ x
        → Finished x
        → Finished (finish env cleanup.0)
    finished o x h g ended = subst Finished (sym (ap (finish env) h ∙ g)) ended

    ran-Ended : Finished (finish env cleanup.0)
    unfolding finish summary
    ran-Ended = elim (run_cleanup_ends policy dry_run now unlink (trash data_dir)) [
      | inl (r, h) ↦ elim (Option-cases env.stdout_error) [
        | inl g ↦
            finished (report r) (exited 0, summary env r) h (rw (g, finish) refl)
              (data_dir, policy, r, ran-Cleaned (exited 0, summary env r) r h)
        | inr (part, g) ↦
            finished (report r) (raised, part) h (rw (g, finish) refl)
              (inr (part, g, data_dir, policy, r, ran-Cleaned (raised, part) r h))
      ]
      | inr (inl (h, same)) ↦
          finished not_a_directory_error (exited 2, "") h refl
            (refl, ran-unchanged (exited 2, "") same)
      | inr (inr (h, same)) ↦
          finished io_error (exited 2, "") h refl (refl, ran-unchanged (exited 2, "") same)
    ]

  -- A run of the command that exits with 0 has resolved the data directory and the policy, has
  -- cleaned up the trash of that directory and no other, and has printed the report of it. A run that
  -- exits with another code has printed nothing on stdout and changed no trash directory. An exception
  -- leaves the run in two cases: resolving the data directory raises a RuntimeError, and nothing is
  -- printed or changed; or stdout fails, and then the trash is cleaned up all the same, and stdout
  -- holds the part of the report that came through.
  pub amain-Ended : let run = amain env flag dry_run now unlink trash in Ended run.exit run
  unfolding amain
  amain-Ended = by_data_dir (resolve_data_dir env flag) refl
    where
      by_data_dir :
          (d : Resolved)
          → resolve_data_dir env flag ≡ d
          → let run = amain env flag dry_run now unlink trash in Ended run.exit run
      by_data_dir config_error e = rw (e, amain) (refl, λ dir. refl)
      by_data_dir runtime_error e = rw (e, amain) (inl (e, (refl, λ dir. refl)))
      by_data_dir (resolved data_dir) e = elim (Option-cases (resolve_policy env)) [
        | inl f ↦ rw (e, f, amain) (refl, λ dir. refl)
        | inr (policy, f) ↦ rw (e, f, amain) (ran-Ended data_dir policy e f)
      ]
