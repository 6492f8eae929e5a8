-- ===== src/Transaction/Removals.antt =====
-- durable_unlink and _resync_after_unlink, under a schedule.
use doc_lattice.Prelude.{◌≡◌, inl, inr, ap, Bool, true, none, nat_eq, list_eq, option_eq}
use doc_lattice.Disk.{
  FilePath, Disk, World, Failure, is_os_error, is_not_found, remove, node_at, parent,
}
use doc_lattice.Persistence.{durable_unlink}
use doc_lattice.Transaction.Artifacts.{resync_after_unlink, still_absent}
use doc_lattice.Transaction.Runs.{Calm, Ends, weaken, try-Ends}
use doc_lattice.Transaction.Calls.{Plain, lstat-Ends, sync-Ends, unlink-Ends, Missing-is_os_error}

module _ (Noisy : Type 0) (P : Disk → Type 0) (path : FilePath) where
  abbrev pub Gone : Disk → Type 0
  Gone d = P d × (node_at d path ≡ none)

  abbrev pub Verdict : Bool → Disk → Type 0
  Verdict gone d = P d × (gone ≡ true → node_at d path ≡ none)

  module _ (keep : (d : Disk) → P d → P (remove path d)) (w : World) (calm : Calm Noisy w)
      (p : P w.disk) where
    pub durable_unlink-Ends :
        Plain (node_at w.disk path)
        → Ends Noisy
            (λ _ d. Gone d)
            (λ failure d. P d × Noisy × (is_os_error failure ≡ true))
            P
            (durable_unlink path w)
    unfolding durable_unlink
    durable_unlink-Ends plain =
        try-Ends is_not_found _ _ (unlink-Ends Noisy P w calm p path keep plain)
          (λ failure d (p', why) uncaught. elim why [
            | inl (e, m) ↦ cc
            | inr (e, noise) ↦ (p', noise, ap is_os_error e)
          ])
          (λ failure w' calm' (p', why) in_clause. record {
            calm = calm';
            holds = elim why [ inl (e, m) ↦ (p', m) | inr (e, noise) ↦ cc ];
          })
          λ _ w' calm' gone.
            weaken _ (sync-Ends Noisy Gone w' calm' gone (parent path)) (λ _ d holds. holds)
              (λ failure d (e, (p', m), noise). (p', noise, ap is_os_error e)) (λ d (p', m). p')

  module _ (w : World) (calm : Calm Noisy w) (p : P w.disk) {R : Failure → Disk → Type 0} where
    pub resync_after_unlink-Ends : Ends Noisy Verdict R P (resync_after_unlink path w)
    unfolding resync_after_unlink
    resync_after_unlink-Ends =
        try-Ends is_os_error _ _ (lstat-Ends Noisy P w calm p path)
          (λ failure d m uncaught. absurd (Missing-is_os_error Noisy P path failure d m uncaught))
          (λ failure w' calm' m in_clause.
            try-Ends is_os_error _ _ (sync-Ends Noisy P w' calm' m.0 (parent path))
              (λ failure' d (e, p', noise) uncaught. cc)
              (λ failure' w'' calm'' (e, p', noise) in_clause'. record {
                calm = calm'';
                holds = (p', λ e'. cc);
              })
              λ _ w'' calm'' p''.
                try-Ends is_os_error _ _ (lstat-Ends Noisy P w'' calm'' p'' path)
                  (λ failure' d m' uncaught.
                    absurd (Missing-is_os_error Noisy P path failure' d m' uncaught))
                  (λ failure' w3 calm3 (p3, why) in_clause'. elim why [
                    | inl (e, m') ↦
                        rw (e, still_absent) (record { calm = calm3; holds = (p3, λ _. m') })
                    | inr (e, noise) ↦
                        rw (e, still_absent) (record { calm = calm3; holds = (p3, λ e'. cc) })
                  ])
                  λ node w3 calm3 (p3, e). record { calm = calm3; holds = (p3, λ e'. cc) })
          λ node w' calm' (p', e). record { calm = calm'; holds = (p', λ e'. cc) }
