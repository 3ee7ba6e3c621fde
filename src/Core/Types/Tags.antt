-- ===== src/Core/Types/Tags.antt =====
-- Comparing effect classes by their tags decides equality.
use map_data_aggregation_enh.Base.{ℕ, zero, suc, ◌≡◌, refl, sym, ap, ◌∙◌, ◌↔◌, true, eqb_iff}
use map_data_aggregation_enh.Core.Types.{
  EffectClass, network_read, artifact_read, artifact_write, state_write, evidence_write,
  review_write, canonical_write, public_write, effect_tag, effect_eq,
}

effect_at : ℕ → EffectClass
effect_at zero = network_read
effect_at (suc zero) = artifact_read
effect_at (suc (suc zero)) = artifact_write
effect_at (suc (suc (suc zero))) = state_write
effect_at (suc (suc (suc (suc zero)))) = evidence_write
effect_at (suc (suc (suc (suc (suc zero))))) = review_write
effect_at (suc (suc (suc (suc (suc (suc zero)))))) = canonical_write
effect_at (suc (suc (suc (suc (suc (suc (suc n))))))) = public_write

effect_at-effect_tag : (e : EffectClass) → effect_at (effect_tag e) ≡ e
unfolding effect_at
effect_at-effect_tag network_read = refl
effect_at-effect_tag artifact_read = refl
effect_at-effect_tag artifact_write = refl
effect_at-effect_tag state_write = refl
effect_at-effect_tag evidence_write = refl
effect_at-effect_tag review_write = refl
effect_at-effect_tag canonical_write = refl
effect_at-effect_tag public_write = refl

pub effect_eq_iff : (a b : EffectClass) → (effect_eq a b ≡ true) ↔ (a ≡ b)
effect_eq_iff a b = (
  λ h.
      sym (effect_at-effect_tag a)
      ∙ (ap effect_at ((eqb_iff (effect_tag a) (effect_tag b)).0 h) ∙ effect_at-effect_tag b),
  λ e. (eqb_iff (effect_tag a) (effect_tag b)).1 (ap effect_tag e),
)
