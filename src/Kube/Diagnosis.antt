-- ===== src/Kube/Diagnosis.antt =====
-- Which pod a rollout that does not come further is blamed on (internal/kube/rollout.go).
use devops_tools.Prelude.{
  ◌≤◌, Bool, true, false, ◌&&◌, some, List, [], ◌∷◌, ◌≡◌, refl, arith, ltb, In, here, there,
  Bool-cases, inl, inr, ◌⊎◌, sym,
}
use devops_tools.Kube.{Pod}
use devops_tools.Kube.Rollouts.{
  Workload, RolloutStatus, progress, rank, blame, is_to_blame, pod_stuck_reason, rollout_status,
}

abbrev blaming : RolloutStatus → Pod → RolloutStatus
blaming st p = record st { reason = pod_stuck_reason p; reason_pod = p.name }

abbrev is_worse : RolloutStatus → Pod → Bool
is_worse st p = is_to_blame p && ltb (rank st.reason) (rank (pod_stuck_reason p))

blame_mono : (st : RolloutStatus) (ps : List Pod) → rank st.reason ≤ rank (blame st ps).reason
unfolding blame
blame_mono st [] = omega arith
blame_mono st (p ∷ ps) = elim (Bool-cases (is_worse st p)) [
  | inl e ↦ let later = blame_mono (blaming st p) ps in rw e (ground arith)
  | inr e ↦ rw e (blame_mono st ps)
]

blame_worst :
    {p : Pod} (st : RolloutStatus) {ps : List Pod}
    → In p ps
    → is_to_blame p ≡ true
    → rank (pod_stuck_reason p) ≤ rank (blame st ps).reason
unfolding blame
blame_worst {p} st (here {xs = ps}) b = elim (Bool-cases (is_worse st p)) [
  | inl e ↦ rw e (blame_mono (blaming st p) ps)
  | inr e ↦ let least = blame_mono st ps in rw e (ground arith)
]
blame_worst st (there {y = q} m) b = elim (Bool-cases (is_worse st q)) [
  | inl e ↦ rw e (blame_worst (blaming st q) m b)
  | inr e ↦ rw e (blame_worst st m b)
]

-- What the loop has found: nothing worse than at first, or a pod of the list that is to blame.
abbrev pub Found : RolloutStatus → List Pod → RolloutStatus → Type 0
Found st ps st' =
    ((st'.reason ≡ st.reason) × (st'.reason_pod ≡ st.reason_pod))
    ⊎ ((p : Pod) × In p ps
        × (is_to_blame p ≡ true)
        × (pod_stuck_reason p ≡ st'.reason)
        × (p.name ≡ st'.reason_pod))

Found-later :
    (st st' : RolloutStatus) (p : Pod) (ps : List Pod) → Found st ps st' → Found st (p ∷ ps) st'
Found-later st st' p ps (inl same) = inl same
Found-later st st' p ps (inr (q, m, b', r, n)) = inr (q, there m, b', r, n)

Found-first :
    (st st' : RolloutStatus) (p : Pod) (ps : List Pod)
    → is_to_blame p ≡ true
    → Found (blaming st p) ps st'
    → Found st (p ∷ ps) st'
Found-first st st' p ps b (inl (reason, name)) = inr (p, here, b, sym reason, sym name)
Found-first st st' p ps b (inr (q, m, b', r, n)) = inr (q, there m, b', r, n)

blame-Found : (st : RolloutStatus) (ps : List Pod) → Found st ps (blame st ps)
unfolding blame
blame-Found st [] = inl (refl, refl)
blame-Found st (p ∷ ps) = elim (Bool-cases (is_worse st p)) [
  | inl e ↦
      rw e (
        Found-first st (blame (blaming st p) ps) p ps (ground arith)
          (blame-Found (blaming st p) ps))
  | inr e ↦ rw e (Found-later st (blame st ps) p ps (blame-Found st ps))
]

rollout_status_open :
    (wl : Workload) (ps : List Pod)
    → (progress wl).done ≡ false
    → rollout_status wl (some ps) ≡ blame (progress wl) ps
unfolding rollout_status
rollout_status_open wl ps e = ground arith

rollout_status_done :
    (wl : Workload) (ps : List Pod)
    → (progress wl).done ≡ true
    → rollout_status wl (some ps) ≡ progress wl
unfolding rollout_status
rollout_status_done wl ps e = ground arith

-- A rollout that is done is blamed on nobody. Of one that is not, the reason is the worst of those
-- of the pods that are neither ready nor being deleted, and it comes with the name of such a pod
-- that has it, unless there is none.
pub rollout_status-Found :
    (wl : Workload) (ps : List Pod)
    → let st = rollout_status wl (some ps) in
      ((progress wl).done ≡ true → st ≡ progress wl)
      × Found (progress wl) ps st
      × ((progress wl).done ≡ false
          → (p : Pod) → In p ps
          → is_to_blame p ≡ true
          → rank (pod_stuck_reason p) ≤ rank st.reason)
rollout_status-Found wl ps = (
  rollout_status_done wl ps,
  elim (Bool-cases (progress wl).done) [
    | inl e ↦ rw (rollout_status_done wl ps e) (inl (refl, refl))
    | inr e ↦ rw (rollout_status_open wl ps e) (blame-Found (progress wl) ps)
  ],
  λ e p m b. rw (rollout_status_open wl ps e) (blame_worst (progress wl) m b),
)
