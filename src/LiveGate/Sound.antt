-- ===== src/LiveGate/Sound.antt =====
-- What the preflight of the live mode requires.
use tio_indodax.Prelude.{
  ℕ, ◌≡◌, ◌⊎◌, ◌↔◌, ◌≤◌, refl, Bool, true, false, Option, none, some, List, [], ◌∷◌, ◌++◌, map,
  arith, ltb, inl, inr, Bool-cases, ℤ,
}
use tio_indodax.Storage.{Database, OrderId}
use tio_indodax.Portfolio.{Portfolio}
use tio_indodax.Deadman.{DeadmanSwitch, beat}
use tio_indodax.Reconcile.{ReconResult, Issue, reconcile}
use tio_indodax.LiveGate.{
  Problem, not_reconciled, GateSettings, PermissionReport, Facts, completed, telegram_problems,
  is_demo, day_problems, abs, clock_problems, key_problems, withdraw_problems, heartbeat_problems,
  gate_pairs, recon_problems, listed_problems, preflight_of, live_preflight, gate_ok, or_error,
}

-- Everything that the gate asks for.
pub record IsCleared (s : GateSettings) (facts : Facts) (report : PermissionReport)
    (accepted : Bool) (rec : Option ReconResult) : Type 0 where
  pub telegram : facts.telegram_connected ≡ true
  pub days : (is_demo s ≡ true) ⊎ (s.min_paper_days ≤ completed facts.paper_days)
  pub clock :
      (offset : ℤ) × (facts.clock_offset_ms ≡ some offset) × (abs offset ≤ s.max_clock_offset_ms)
  pub usable : report.legacy_ok ≡ some true
  pub no_withdraw : report.withdraw_possible ≡ some false
  pub heartbeat : accepted ≡ true
  pub reconciled : (r : ReconResult) × (rec ≡ some r) × (r.issues ≡ [])

both :
    (xs ys : List Problem) → gate_ok (xs ++ ys) ≡ true → (gate_ok xs ≡ true) × (gate_ok ys ≡ true)
both [] ys h = (refl, h)
both (x ∷ xs) ys h = absurd (ground arith)

neither : (xs ys : List Problem) → gate_ok xs ≡ true → gate_ok ys ≡ true → gate_ok (xs ++ ys) ≡ true
neither [] ys h k = k
neither (x ∷ xs) ys h k = absurd (ground arith)

-- The parts of the list, one by one.
telegram_ok : (t : Bool) → (gate_ok (telegram_problems t) ≡ true) ↔ (t ≡ true)
telegram_ok true = (λ _. refl, λ _. refl)
telegram_ok false = (λ h. absurd (ground arith), λ h. absurd (ground arith))

days_ok :
    (s : GateSettings) (n : ℕ)
    → (gate_ok (day_problems s n) ≡ true) ↔ ((is_demo s ≡ true) ⊎ (s.min_paper_days ≤ n))
days_ok s n = elim (Bool-cases (is_demo s)) [
  | inl demo ↦ (λ _. inl demo, λ _. rw demo refl)
  | inr real ↦ elim (Bool-cases (ltb n s.min_paper_days)) [
    | inl few ↦ (
      λ h. absurd (ground arith),
      λ h. elim h [ inl demo ↦ absurd (ground arith) | inr enough ↦ absurd (ground arith) ],
    )
    | inr enough ↦ (λ _. inr (ground arith), λ _. rw (real, enough) refl)
  ]
]

within_clock : (n : ℕ) (offset x : ℤ) → some offset ≡ some x → abs x ≤ n → abs offset ≤ n
within_clock n offset x e h = let same : offset ≡ x = ground arith in rw same h

clock_ok :
    (s : GateSettings) (o : Option ℤ)
    → (gate_ok (clock_problems s o) ≡ true)
      ↔ ((offset : ℤ) × (o ≡ some offset) × (abs offset ≤ s.max_clock_offset_ms))
clock_ok s none = (λ h. absurd (ground arith), λ (offset, e, h). absurd (ground arith))
clock_ok s (some offset) = elim (Bool-cases (ltb s.max_clock_offset_ms (abs offset))) [
  | inl late ↦ (
    λ h. absurd (ground arith),
    λ (x, e, h).
        absurd (let near = within_clock s.max_clock_offset_ms offset x e h in ground arith),
  )
  | inr fine ↦ (λ _. (offset, refl, ground arith), λ _. rw fine refl)
]

key_ok : (o : Option Bool) → (gate_ok (key_problems o) ≡ true) ↔ (o ≡ some true)
key_ok none = (λ h. absurd (ground arith), λ h. absurd (ground arith))
key_ok (some true) = (λ _. refl, λ _. refl)
key_ok (some false) = (λ h. absurd (ground arith), λ h. absurd (ground arith))

withdraw_ok : (o : Option Bool) → (gate_ok (withdraw_problems o) ≡ true) ↔ (o ≡ some false)
withdraw_ok none = (λ h. absurd (ground arith), λ h. absurd (ground arith))
withdraw_ok (some true) = (λ h. absurd (ground arith), λ h. absurd (ground arith))
withdraw_ok (some false) = (λ _. refl, λ _. refl)

heartbeat_ok : (a : Bool) → (gate_ok (heartbeat_problems a) ≡ true) ↔ (a ≡ true)
heartbeat_ok true = (λ _. refl, λ _. refl)
heartbeat_ok false = (λ h. absurd (ground arith), λ h. absurd (ground arith))

issues_ok : (found : List Issue) → (gate_ok (map not_reconciled found) ≡ true) ↔ (found ≡ [])
issues_ok [] = (λ _. refl, λ _. refl)
issues_ok (i ∷ rest) = (λ h. absurd (ground arith), λ h. absurd (ground arith))

-- The requirements of a list of two parts are those of the parts.
part :
    {P Q : Type 0} (xs ys : List Problem)
    → (gate_ok xs ≡ true) ↔ P
    → (gate_ok ys ≡ true) ↔ Q
    → (gate_ok (xs ++ ys) ≡ true) ↔ (P × Q)
part xs ys (to_p, from_p) (to_q, from_q) = (
  λ h. let (hx, hy) = both xs ys h in (to_p hx, to_q hy),
  λ (p, q). neither xs ys (from_p p) (from_q q),
)

own_issues :
    (r : ReconResult)
    → (gate_ok (map not_reconciled r.issues) ≡ true)
      ↔ ((q : ReconResult) × (some r ≡ some q) × (q.issues ≡ []))
own_issues r = (
  λ h. (r, refl, (issues_ok r.issues).0 h),
  λ (q, e, clean). let same : r ≡ q = ground arith in (issues_ok r.issues).1 (rw same clean),
)

-- The whole list.
listed_ok :
    (s : GateSettings) (facts : Facts) (report : PermissionReport) (accepted : Bool)
    (rec : Option ReconResult)
    → (gate_ok (or_error (listed_problems s facts report accepted (recon_problems rec))) ≡ true)
      ↔ IsCleared s facts report accepted rec
listed_ok s facts report accepted none =
    (λ h. absurd (ground arith), λ ok. let (r, e, clean) = ok.reconciled in absurd (ground arith))
listed_ok s facts report accepted (some r) =
    let parts =
      part _ _
        (part _ _
          (part _ _
            (part _ _
              (part _ _
                (part _ _ (telegram_ok facts.telegram_connected)
                  (days_ok s (completed facts.paper_days)))
                (clock_ok s facts.clock_offset_ms))
              (key_ok report.legacy_ok))
            (withdraw_ok report.withdraw_possible))
          (heartbeat_ok accepted))
        (own_issues r) in
    (
      λ h.
          let ((((((t, d), c), k), w), b), i) = parts.0 h in
          record {
            telegram = t;
            days = d;
            clock = c;
            usable = k;
            no_withdraw = w;
            heartbeat = b;
            reconciled = i;
          },
      λ ok. parts.1 (
        (((((ok.telegram, ok.days), ok.clock), ok.usable), ok.no_withdraw), ok.heartbeat),
        ok.reconciled,
      ),
    )

preflight_ok :
    (s : GateSettings) (is_ours : OrderId → Bool) (db : Database) (pf : Portfolio) (facts : Facts)
    (deadman : DeadmanSwitch) (asked : Option PermissionReport)
    → (gate_ok (or_error (preflight_of s is_ours db pf facts deadman asked).0) ≡ true) ↔ (
        (report : PermissionReport) × (asked ≡ some report)
        × IsCleared s facts report
            (beat deadman facts.heartbeat).0
            (reconcile is_ours facts.balances facts.orders_of db "live" pf (gate_pairs s pf)))
unfolding preflight_of
preflight_ok s is_ours db pf facts deadman none =
    (λ h. absurd (ground arith), λ (report, e, ok). absurd (ground arith))
preflight_ok s is_ours db pf facts deadman (some report) =
    let listed =
      listed_ok s facts report (beat deadman facts.heartbeat).0
        (reconcile is_ours facts.balances facts.orders_of db "live" pf (gate_pairs s pf)) in
    (
      λ h. (report, refl, listed.0 h),
      λ (other, e, ok). let same : report ≡ other = ground arith in listed.1 (rw same ok),
    )

-- The preflight lists no problem exactly if the permission report was read and, for it, Telegram is
-- connected, the account is the demo one or has the paper days, the clock is measured and within its
-- bound, the key is usable and proven without the right to withdraw, the heartbeat of the deadman
-- switch was accepted, and the reconciliation was carried out and found no issue.
pub gate_ok-IsCleared :
    (s : GateSettings) (is_ours : OrderId → Bool) (db : Database) (pf : Portfolio) (facts : Facts)
    (deadman : DeadmanSwitch)
    → (gate_ok (live_preflight s is_ours db pf facts deadman).0 ≡ true) ↔ (
        (report : PermissionReport) × (facts.permissions ≡ some report)
        × IsCleared s facts report
            (beat deadman facts.heartbeat).0
            (reconcile is_ours facts.balances facts.orders_of db "live" pf (gate_pairs s pf)))
unfolding live_preflight
gate_ok-IsCleared s is_ours db pf facts deadman =
    preflight_ok s is_ours db pf facts deadman facts.permissions
