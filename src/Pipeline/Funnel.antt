-- ===== src/Pipeline/Funnel.antt =====
-- The counts of a scan: `SourceFunnel` of src/analysis/source_funnel.py and the totals of `ScanOutcome`.
use whatsapp_radar.Base.{
  ℕ, ◌+◌, ◌≤◌, String, ◌≡◌, refl, inl, inr, [], ◌∷◌, ◌==◌, eq_refl, arith, All, Bool-cases,
}
use whatsapp_radar.Pipeline.State.{SourceFunnel, Funnels, skipped, on_funnel}

-- A count, over all sources.
abbrev pub total : (SourceFunnel → ℕ) → Funnels → ℕ
total m [] = 0
total m ((s, f) ∷ g) = m f + total m g

-- Every chat with a delta was passed or rejected; what follows a stage is at most what it let through.
abbrev pub IsBalanced : SourceFunnel → Type 0
IsBalanced f =
    (f.channels_with_delta ≡ f.stage1_passed + f.stage1_rejected)
    × (f.llm_calls ≤ f.stage1_passed)
    × (f.actionable ≤ f.stage1_passed)
    × (f.cursors_advanced ≤ f.channels_with_delta)

abbrev pub AreBalanced : Funnels → Type 0
AreBalanced = All (λ x. IsBalanced x.1)

-- One count of one source goes up by `d`.
pub total-on_funnel :
    (m : SourceFunnel → ℕ) (d : ℕ) (s : String) (f : SourceFunnel → SourceFunnel) (g : Funnels)
    → ((x : SourceFunnel) → m (f x) ≡ m x + d)
    → m skipped ≡ 0
    → total m (on_funnel s f g) ≡ total m g + d
unfolding on_funnel
total-on_funnel m d s f [] up z = omega (arith, up skipped, z)
total-on_funnel m d s f ((j, x) ∷ g) up z = elim (Bool-cases (j == s)) [
  | inl e ↦ rw e (omega (arith, up x))
  | inr e ↦ rw e (omega (arith, total-on_funnel m d s f g up z))
]

pub AreBalanced-on_funnel :
    (s : String) (f : SourceFunnel → SourceFunnel) (g : Funnels)
    → ((x : SourceFunnel) → IsBalanced x → IsBalanced (f x))
    → AreBalanced g
    → AreBalanced (on_funnel s f g)
unfolding on_funnel
AreBalanced-on_funnel s f [] up h = (up skipped (omega arith), tt)
AreBalanced-on_funnel s f ((j, x) ∷ g) up h = elim (Bool-cases (j == s)) [
  | inl e ↦ rw e (up x h.0, h.1)
  | inr e ↦ rw e (h.0, AreBalanced-on_funnel s f g up h.1)
]

-- Two notes to one source are one.
pub on_funnel-on_funnel :
    (s : String) (f k : SourceFunnel → SourceFunnel) (g : Funnels)
    → on_funnel s f (on_funnel s k g) ≡ on_funnel s (λ x. f (k x)) g
unfolding on_funnel
on_funnel-on_funnel s f k [] = rw (eq_refl s) refl
on_funnel-on_funnel s f k ((j, x) ∷ g) = elim (Bool-cases (j == s)) [
  | inl e ↦ simp e refl
  | inr e ↦ simp (e, on_funnel-on_funnel s f k g) refl
]
