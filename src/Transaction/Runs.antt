-- ===== src/Transaction/Runs.antt =====
-- How an action may end, whatever the schedule does: what holds when it returns, when it raises and when the
-- process is killed. `Noisy` stands for the permission to fail: a world without it goes through.
use doc_lattice.Prelude.{
  ◌≡◌, ◌⊎◌, inl, inr, Bool, true, false, List, [], ◌∷◌, Bool-cases, nat_eq, list_eq, option_eq,
}
use doc_lattice.Disk.{
  Disk, Fault, proceeds, fails, crashes, World, Failure, os_error, End, done, raised, crashed,
  Action, resume, caught, scheduled, call,
}

module _ (Noisy : Type 0) where
  -- Every later call goes through, or failing is permitted.
  abbrev pub CalmFor : List Fault → Type 0
  CalmFor schedule = (schedule ≡ []) ⊎ Noisy

  abbrev pub Calm : World → Type 0
  Calm w = CalmFor w.schedule

  module _ {A : Type 0} (Q : A → Disk → Type 0) (R : Failure → Disk → Type 0)
      (X : Disk → Type 0) where
    abbrev pub Finishes : End A → Disk → Type 0
    Finishes (done a) d = Q a d
    Finishes (raised failure) d = R failure d
    Finishes crashed d = X d × Noisy

    pub record Ends (r : End A × World) : Type 0 where
      pub calm : Calm r.1
      pub holds : Finishes r.0 r.1.disk

module _ {Noisy : Type 0} where
  pub resume-Ends :
      {A B : Type 0} {Q : A → Disk → Type 0} {Q' : B → Disk → Type 0} {R : Failure → Disk → Type 0}
      {X : Disk → Type 0} (next : A → Action B) (r : End A × World)
      → Ends Noisy Q R X r
      → ((a : A) (w : World) → Calm Noisy w → Q a w.disk → Ends Noisy Q' R X (next a w))
      → Ends Noisy Q' R X (resume next r)
  resume-Ends next (done a, w) ends go = go a w ends.calm ends.holds
  resume-Ends next (raised failure, w) ends go = record { calm = ends.calm; holds = ends.holds }
  resume-Ends next (crashed, w) ends go = record { calm = ends.calm; holds = ends.holds }

  pub weaken :
      {A : Type 0} {Q Q' : A → Disk → Type 0} {R R' : Failure → Disk → Type 0}
      {X X' : Disk → Type 0} (r : End A × World)
      → Ends Noisy Q R X r
      → ((a : A) (d : Disk) → Q a d → Q' a d)
      → ((failure : Failure) (d : Disk) → R failure d → R' failure d)
      → ((d : Disk) → X d → X' d)
      → Ends Noisy Q' R' X' r
  weaken (done a, w) ends q r x = record { calm = ends.calm; holds = q a w.disk ends.holds }
  weaken (raised failure, w) ends q r x = record {
    calm = ends.calm;
    holds = r failure w.disk ends.holds;
  }
  weaken (crashed, w) ends q r x = record {
    calm = ends.calm;
    holds = (x w.disk ends.holds.0, ends.holds.1);
  }

  pub relax :
      {A : Type 0} {Q : A → Disk → Type 0} {R : Failure → Disk → Type 0} {X X' : Disk → Type 0}
      (r : End A × World)
      → Ends Noisy Q R X r
      → ((d : Disk) → X d → X' d)
      → Ends Noisy Q R X' r
  relax r ends x = weaken r ends (λ _ d q. q) (λ _ d e. e) x

  -- `try`, with a case for the exception and a case for the value.
  pub try-Ends :
      {A B : Type 0} {Q : A → Disk → Type 0} {Q' : B → Disk → Type 0}
      {R R' : Failure → Disk → Type 0} {X : Disk → Type 0} (clause : Failure → Bool)
      (next : Failure ⊎ A → Action B) (r : End A × World)
      → Ends Noisy Q R X r
      → ((failure : Failure) (d : Disk) → R failure d → clause failure ≡ false → R' failure d)
      → ((failure : Failure) (w : World)
          → Calm Noisy w
          → R failure w.disk
          → clause failure ≡ true
          → Ends Noisy Q' R' X (next (inl failure) w))
      → ((a : A) (w : World) → Calm Noisy w → Q a w.disk → Ends Noisy Q' R' X (next (inr a) w))
      → Ends Noisy Q' R' X (resume next (caught clause r))
  try-Ends clause next (done a, w) ends uncaught handler go = go a w ends.calm ends.holds
  try-Ends clause next (crashed, w) ends uncaught handler go = record {
    calm = ends.calm;
    holds = ends.holds;
  }
  try-Ends clause next (raised failure, w) ends uncaught handler go =
      elim (Bool-cases (clause failure)) [
        | inl in_clause ↦
            rw (in_clause, caught, resume) (handler failure w ends.calm ends.holds in_clause)
        | inr not_caught ↦
            rw (not_caught, caught, resume)
              (record { calm = ends.calm; holds = uncaught failure w.disk ends.holds not_caught })
      ]

  -- A Boolean result, with a case for each value.
  pub resume-Bool :
      {B : Type 0} {Q : Bool → Disk → Type 0} {Q' : B → Disk → Type 0} {R : Failure → Disk → Type 0}
      {X : Disk → Type 0} (next : Bool → Action B) (r : End Bool × World)
      → Ends Noisy Q R X r
      → ((w : World) → Calm Noisy w → Q true w.disk → Ends Noisy Q' R X (next true w))
      → ((w : World) → Calm Noisy w → Q false w.disk → Ends Noisy Q' R X (next false w))
      → Ends Noisy Q' R X (resume next r)
  resume-Bool next (done true, w) ends yes_case no_case = yes_case w ends.calm ends.holds
  resume-Bool next (done false, w) ends yes_case no_case = no_case w ends.calm ends.holds
  resume-Bool next (raised failure, w) ends yes_case no_case = record {
    calm = ends.calm;
    holds = ends.holds;
  }
  resume-Bool next (crashed, w) ends yes_case no_case = record {
    calm = ends.calm;
    holds = ends.holds;
  }

  -- One call of the operating system.
  module _ {A : Type 0} {Q : A → Disk → Type 0} {R : Failure → Disk → Type 0} {X : Disk → Type 0}
      (op : Disk → End A × Disk) where
    scheduled-Ends :
        (d : Disk) (schedule : List Fault)
        → CalmFor Noisy schedule
        → (Noisy → R os_error d)
        → (Noisy → X d)
        → Finishes Noisy Q R X (op d).0 (op d).1
        → Ends Noisy Q R X (scheduled op d schedule)
    scheduled-Ends d [] calm failing dying goes = record { calm = calm; holds = goes }
    scheduled-Ends d (proceeds ∷ later) (inl quiet) failing dying goes = cc
    scheduled-Ends d (fails ∷ later) (inl quiet) failing dying goes = cc
    scheduled-Ends d (crashes ∷ later) (inl quiet) failing dying goes = cc
    scheduled-Ends d (proceeds ∷ later) (inr noise) failing dying goes = record {
      calm = inr noise;
      holds = goes;
    }
    scheduled-Ends d (fails ∷ later) (inr noise) failing dying goes = record {
      calm = inr noise;
      holds = failing noise;
    }
    scheduled-Ends d (crashes ∷ later) (inr noise) failing dying goes = record {
      calm = inr noise;
      holds = (dying noise, noise);
    }

    pub call-Ends :
        (w : World)
        → Calm Noisy w
        → (Noisy → R os_error w.disk)
        → (Noisy → X w.disk)
        → Finishes Noisy Q R X (op w.disk).0 (op w.disk).1
        → Ends Noisy Q R X (call op w)
    unfolding call
    call-Ends w calm failing dying goes = scheduled-Ends w.disk w.schedule calm failing dying goes
