-- ===== src/Watcher/Quiet.antt =====
-- internal/watcher/watcher.go: what becomes of the changed files when no more events come.
use mathlib.Core.List.{append_assoc, append-nil}
use costwise_mcp.Prelude.{
  ℕ, zero, suc, ◌+◌, ◌*◌, ◌<◌, ◌≡◌, ◌⊎◌, refl, ap, sym, inl, inr, Bool, true, false, List, [], ◌∷◌,
  ◌++◌, Bytes, if◌then◌else◌, length, arith, length-append,
}
use costwise_mcp.Watcher.{Watchdog, Repository, Tools, Outside, expire, take_files, finish, reindex}
use costwise_mcp.Watcher.Steps.{QuietStep, expired, taken, finished, Reached, Reached-IsWatching}

-- the steps that are left without another event
abbrev pub work : Watchdog → ℕ
work w = (if w.armed then 3 else 0) + (2 * w.due + length w.runs)

-- the files that each callback takes, when so many of them get the lock one after the other
abbrev pub takes : ℕ → List Bytes → List (List Bytes)
takes zero files = []
takes (suc n) files = files ∷ takes n []

-- the files of the runs that are left, in the order in which they were or will be taken
abbrev pub batches : Watchdog → List (List Bytes)
batches w = w.runs ++ takes ((if w.armed then 1 else 0) + w.due) w.changed_files

module _ (tools : Tools) where
  -- so many steps without an event
  pub data QuietRun : Watchdog → ℕ → Watchdog → Type 0 where
    done : (w : Watchdog) → QuietRun w 0 w
    step : {u v w : Watchdog} {n : ℕ} → QuietStep tools u v → QuietRun v n w → QuietRun u (suc n) w

  QuietStep-work : {v w : Watchdog} → QuietStep tools v w → work v ≡ suc (work w)
  QuietStep-work (expired armed e) = rw e (rw armed (omega arith))
  QuietStep-work {v} (taken due d e) =
      rw e (omega (arith, d, length-append v.runs (v.changed_files ∷ [])))
  QuietStep-work {v} (finished before after files o d e) =
      rw e (
        omega
          (arith, ap length d, length-append before (files ∷ after), length-append before after))

  -- A watchdog makes at most three steps for an armed timer, two for each callback that is due and
  -- one for each run, when no event comes, and each step leaves one less.
  pub QuietRun-work : {v w : Watchdog} {n : ℕ} → QuietRun v n w → n + work w ≡ work v
  QuietRun-work (done w) = omega arith
  QuietRun-work (step s r) = omega (arith, QuietStep-work s, QuietRun-work r)

  abbrev pub reindex_all : Outside → List (List Bytes) → Repository → Repository
  reindex_all o [] r = r
  reindex_all o (files ∷ runs) r = reindex_all o runs (reindex tools o files r)

  -- so many steps lead to a state with nothing left to do and this repository
  pub record Settles (w : Watchdog) (n : ℕ) (repository : Repository) : Type 0 where
    pub final : Watchdog
    pub run : QuietRun w n final
    pub no_files : final.changed_files ≡ []
    pub no_work : work final ≡ 0
    pub reached : final.repository ≡ repository

  Settles-step :
      {v w : Watchdog} {n : ℕ} {r : Repository}
      → QuietStep tools v w
      → Settles w n r
      → Settles v (suc n) r
  Settles-step s h = record {
    final = h.final;
    run = step s h.run;
    no_files = h.no_files;
    no_work = h.no_work;
    reached = h.reached;
  }

  module _ (o : Outside) where
    settle_runs :
        (runs : List (List Bytes)) (w : Watchdog)
        → w.armed ≡ false
        → w.due ≡ 0
        → w.changed_files ≡ []
        → w.runs ≡ runs
        → Settles w (length runs) (reindex_all o runs w.repository)
    settle_runs [] w a d c r = record {
      final = w;
      run = done w;
      no_files = c;
      no_work = rw (a, d, r) refl;
      reached = refl;
    }
    settle_runs (files ∷ runs) w a d c r =
        Settles-step (finished [] runs files o r refl)
          (settle_runs runs (finish tools [] runs files o w) a d c refl)

    -- the same number of steps and the same batches
    Settles-same :
        {w : Watchdog} {m n : ℕ} {xs ys : List (List Bytes)}
        → m ≡ n
        → xs ≡ ys
        → Settles w m (reindex_all o xs w.repository)
        → Settles w n (reindex_all o ys w.repository)
    Settles-same {w} e f h = rw (sym e, sym f) h

    settle_due :
        (due : ℕ) (w : Watchdog)
        → w.armed ≡ false
        → w.due ≡ due
        → (w.changed_files ≡ []) ⊎ (0 < due)
        → Settles w
            (2 * due + length w.runs)
            (reindex_all o (w.runs ++ takes due w.changed_files) w.repository)
    settle_due zero w a d (inl c) =
        Settles-same (omega arith) (sym (append-nil w.runs)) (settle_runs w.runs w a d c refl)
    settle_due zero w a d (inr h) = absurd (omega arith)
    settle_due (suc due) w a d h =
        Settles-same (omega (arith, length-append w.runs (w.changed_files ∷ [])))
          (append_assoc w.runs (w.changed_files ∷ []) (takes due []))
          (Settles-step (taken due d refl) (settle_due due (take_files due w) a refl (inl refl)))

    settle :
        (armed : Bool) (w : Watchdog)
        → w.armed ≡ armed
        → (w.changed_files ≡ []) ⊎ ((w.armed ≡ true) ⊎ (0 < w.due))
        → Settles w (work w) (reindex_all o (batches w) w.repository)
    settle true w a h =
        let three : ◌≡◌ {A = ℕ} (if w.armed then 3 else 0) 3 =
          ap (λ (b : Bool). if b then 3 else 0) a in
        let one : ◌≡◌ {A = ℕ} (if w.armed then 1 else 0) 1 =
          ap (λ (b : Bool). if b then 1 else 0) a in
        Settles-same (omega (arith, three))
          (ap (λ (n : ℕ). w.runs ++ takes n w.changed_files) {x = suc w.due} (omega (arith, one)))
          (Settles-step (expired a refl)
            (settle_due (suc w.due) (expire w) refl refl (inr (omega arith))))
    settle false w a h =
        let three : ◌≡◌ {A = ℕ} (if w.armed then 3 else 0) 0 =
          ap (λ (b : Bool). if b then 3 else 0) a in
        let one : ◌≡◌ {A = ℕ} (if w.armed then 1 else 0) 0 =
          ap (λ (b : Bool). if b then 1 else 0) a in
        Settles-same (omega (arith, three))
          (ap (λ (n : ℕ). w.runs ++ takes n w.changed_files) {x = w.due} (omega (arith, one)))
          (settle_due w.due w a refl (left h))
      where
        left :
            (w.changed_files ≡ []) ⊎ ((w.armed ≡ true) ⊎ (0 < w.due))
            → (w.changed_files ≡ []) ⊎ (0 < w.due)
        left (inl none) = inl none
        left (inr (inl armed)) = absurd (cc)
        left (inr (inr some_due)) = inr some_due

    -- From every state behind a successful start, the watchdog can go on without another event to
    -- a state in which no file waits and nothing is left to do, and there the repository is what the
    -- runs make of it for the files taken so far and then for all files that waited.
    pub Reached-Settles :
        (w : Watchdog)
        → Reached tools w
        → Settles w (work w) (reindex_all o (batches w) w.repository)
    Reached-Settles w r = settle w.armed w refl (Reached-IsWatching tools r).served
