-- ===== src/Monitor/View/Healthy.antt =====
-- Which nodes the page shows as healthy.
use sbackup.Base.{
  ℕ, ◌+◌, ◌*◌, ◌≤◌, String, true, false, ◌||◌, List, [], ◌∷◌, ◌≡◌, ◌≢◌, ◌⊎◌, inl, inr, refl, sym,
  ◌∙◌, arith, eq_iff, All, Bool-cases, ◌==◌, string_eq,
}
use sbackup.Base.Int.{pos, saturate64, sub_ℕ, ltb_ℤ}
use sbackup.Base.Time.{minute, is_zero}
use sbackup.Monitor.{Node, JobState}
use sbackup.Monitor.View.{JobView, NodeView, job_status, heartbeat_status, node_status, node_view}

true-false : true ≡ false → ⊥
true-false q = cc

distinct : (a b : String) → (a == b) ≡ false → a ≢ b
distinct a b h q = true-false (sym ((eq_iff a b).1 q) ∙ h)

recent :
    (now last : ℕ)
    → ltb_ℤ (pos (15 * minute)) (saturate64 (sub_ℕ now last)) ≡ false
    → now ≤ last + 15 * minute
unfolding saturate64
recent now last h = ground arith

heartbeat_status-healthy :
    (now last : ℕ) → heartbeat_status now last ≡ "healthy" → (last ≢ 0) × (now ≤ last + 15 * minute)
unfolding heartbeat_status saturate64
heartbeat_status-healthy now last h = elim (Bool-cases (is_zero last)) [
  | inl z ↦ absurd (distinct "unknown" "healthy" refl (sym (rw (heartbeat_status, z) refl) ∙ h))
  | inr z ↦ elim (Bool-cases (ltb_ℤ (pos (15 * minute)) (saturate64 (sub_ℕ now last)))) [
    | inl l ↦
        absurd (distinct "offline" "healthy" refl (sym (rw (heartbeat_status, z, l) refl) ∙ h))
    | inr l ↦ ((λ q. true-false (sym (zero_is last q) ∙ z)), recent now last l)
  ]
]
  where
    zero_is : (n : ℕ) → n ≡ 0 → is_zero n ≡ true
    zero_is n q = rw q refl

-- A job that neither failed nor was missed.
abbrev pub Calm : ℕ → String × JobState → Type 0
Calm now entry = (job_status now entry.1 ≢ "critical") × (job_status now entry.1 ≢ "missed")

-- With a job that is critical or missed the status is one of the two.
differs :
    (now : ℕ) (entry : String × JobState)
    → (job_status now entry.1 == "critical" || job_status now entry.1 == "missed") ≡ false
    → Calm now entry
differs now entry e = (
  distinct (job_status now entry.1) "critical" (ground arith),
  distinct (job_status now entry.1) "missed" (ground arith),
)

node_status-cases :
    (now : ℕ) (status : String) (jobs : List (String × JobState))
    → (node_status now status jobs ≡ "critical")
      ⊎ (node_status now status jobs ≡ "missed")
      ⊎ ((node_status now status jobs ≡ status) × All (Calm now) jobs)
unfolding node_status
node_status-cases now status [] = inr (inr (refl, tt))
node_status-cases now status ((id, j) ∷ jobs) =
    elim (Bool-cases (job_status now j == "critical" || job_status now j == "missed")) [
      | inl e ↦ rw e (spoiled e (node_status-cases now (job_status now j) jobs))
      | inr e ↦ rw e (calm e (node_status-cases now status jobs))
    ]
  where
    spoiled :
        (job_status now j == "critical" || job_status now j == "missed") ≡ true
        → (node_status now (job_status now j) jobs ≡ "critical")
          ⊎ (node_status now (job_status now j) jobs ≡ "missed")
          ⊎ ((node_status now (job_status now j) jobs ≡ job_status now j) × All (Calm now) jobs)
        → (node_status now (job_status now j) jobs ≡ "critical")
          ⊎ (node_status now (job_status now j) jobs ≡ "missed")
          ⊎ ((node_status now (job_status now j) jobs ≡ status) × All (Calm now) ((id, j) ∷ jobs))
    spoiled e (inl h) = inl h
    spoiled e (inr (inl h)) = inr (inl h)
    spoiled e (inr (inr (h, a))) = elim (Bool-cases (job_status now j == "critical")) [
      | inl c ↦ inl (h ∙ (eq_iff (job_status now j) "critical").0 c)
      | inr c ↦ inr (inl (h ∙ (eq_iff (job_status now j) "missed").0 (rw c at e)))
    ]

    calm :
        (job_status now j == "critical" || job_status now j == "missed") ≡ false
        → (node_status now status jobs ≡ "critical")
          ⊎ (node_status now status jobs ≡ "missed")
          ⊎ ((node_status now status jobs ≡ status) × All (Calm now) jobs)
        → (node_status now status jobs ≡ "critical")
          ⊎ (node_status now status jobs ≡ "missed")
          ⊎ ((node_status now status jobs ≡ status) × All (Calm now) ((id, j) ∷ jobs))
    calm e (inl h) = inl h
    calm e (inr (inl h)) = inr (inl h)
    calm e (inr (inr (h, a))) = inr (inr (h, (differs now (id, j) e, a)))

-- A node that the page shows as healthy has sent a heartbeat, at most fifteen minutes before, and none
-- of its jobs is critical or missed.
pub node_view-healthy :
    (sort_jobs : List JobView → List JobView) (sort_nodes : List NodeView → List NodeView) (now : ℕ)
    (n : Node)
    → (node_view sort_jobs sort_nodes now n).status ≡ "healthy"
    → (n.last_heartbeat ≢ 0)
      × (now ≤ n.last_heartbeat + 15 * minute)
      × All
          (λ entry. (job_status now entry.1 ≢ "critical") × (job_status now entry.1 ≢ "missed"))
          n.jobs
unfolding node_view
node_view-healthy sort_jobs sort_nodes now n h =
    elim (node_status-cases now (heartbeat_status now n.last_heartbeat) n.jobs) [
      | inl c ↦ absurd (different (sym c ∙ h))
      | inr (inl c) ↦ absurd (different' (sym c ∙ h))
      | inr (inr (e, a)) ↦
          let (known, recent) = heartbeat_status-healthy now n.last_heartbeat (sym e ∙ h) in
          (known, recent, a)
    ]
  where
    different : ◌≡◌ {A = String} "critical" "healthy" → ⊥
    different q = distinct "critical" "healthy" refl q

    different' : ◌≡◌ {A = String} "missed" "healthy" → ⊥
    different' q = distinct "missed" "healthy" refl q
