-- ===== src/Core/Admission/Disk.antt =====
-- The free-disk watermark of the admission check (packages/core/src/admission.ts).
use map_data_aggregation_enh.Base.{
  ℕ, ◌+◌, ◌-◌, ◌≤◌, ◌≡◌, ap, sym, ◌∙◌, false, ◌↔◌, List, [], All, All-map, failing-nil, nil-failing,
  arith,
}
use map_data_aggregation_enh.Base.Numbers.{Num, nat, lt, sub, max, to_ℕ, bad_natural-to_ℕ}
use map_data_aggregation_enh.Core.Types.{ResourceReservation}
use map_data_aggregation_enh.Core.Admission.{
  HostAdmissionLimits, limit_entries, disk_reasons, sum_from, max_from, artifacts, free_disk,
}
use map_data_aggregation_enh.Core.Admission.Sums.{
  sum_from-nat, le-max_from, max_from-le, larger, max-nat,
}
use map_data_aggregation_enh.Core.Admission.Bounds.{
  IsSound, AreNatural, reserved, KeepsDisk, naturals_artifacts, naturals_free_disk,
}

lt-sub : (o r m : ℕ) → (lt (sub (nat o) (nat r)) (nat m) ≡ false) ↔ (m + r ≤ o)
lt-sub o r m = (λ h. ground arith, λ h. ground arith)

module _ (limits : HostAdmissionLimits) (active : List ResourceReservation)
    (candidate : ResourceReservation) (observed : Num)
    (nl : AreNatural (limit_entries limits observed)) (nc : IsSound candidate)
    (na : All IsSound active) where
  start : ℕ
  start = larger (to_ℕ limits.min_free_disk_bytes) (to_ℕ candidate.min_free_disk_bytes)

  start_lem : max limits.min_free_disk_bytes candidate.min_free_disk_bytes ≡ nat start
  unfolding start
  start_lem =
      ap (λ v. max v candidate.min_free_disk_bytes)
        (bad_natural-to_ℕ limits.min_free_disk_bytes nl.1.1.1.0)
      ∙ max-nat (to_ℕ limits.min_free_disk_bytes) candidate.min_free_disk_bytes nc.1.1.1.1.1.0

  reserved_lem :
      sum_from artifacts candidate.max_artifact_bytes active
      ≡ nat (reserved limits active candidate)
  reserved_lem =
      ap (λ v. sum_from artifacts v active)
        (bad_natural-to_ℕ candidate.max_artifact_bytes nc.1.1.1.1.0)
      ∙ sum_from-nat artifacts (to_ℕ candidate.max_artifact_bytes) active
          (naturals_artifacts active na)

  disk_test :
      (m : ℕ)
      → max_from free_disk (nat start) active ≡ nat m
      → lt
          (sub observed (sum_from artifacts candidate.max_artifact_bytes active))
          (max_from free_disk (max limits.min_free_disk_bytes candidate.min_free_disk_bytes) active)
        ≡ lt (sub (nat (to_ℕ observed)) (nat (reserved limits active candidate))) (nat m)
  disk_test m e =
      let required = ap (λ v. max_from free_disk v active) start_lem ∙ e in
      λ i. lt (sub (bad_natural-to_ℕ observed nl.1.1.1.1.0 i) (reserved_lem i)) (required i)

  pub disk_reasons-nil :
      disk_reasons limits active candidate observed ≡ []
      → KeepsDisk limits active candidate observed
  unfolding disk_reasons start
  disk_reasons-nil h =
      let (m, e, start_le, active_le) =
        le-max_from free_disk start active (naturals_free_disk active na) in
      let fits =
        (lt-sub (to_ℕ observed) (reserved limits active candidate) m).0
          (sym (disk_test m e) ∙ (failing-nil _ h).0) in
      (ground arith, (ground arith, All-map (λ r le. omega (arith, le, fits)) active active_le))

  pub nil-disk_reasons :
      KeepsDisk limits active candidate observed
      → disk_reasons limits active candidate observed ≡ []
  unfolding disk_reasons start
  nil-disk_reasons (host, (own, others)) =
      let room = to_ℕ observed - reserved limits active candidate in
      let (m, e, m_le) =
        max_from-le free_disk start room active (naturals_free_disk active na) (ground arith)
          (All-map (λ r le. omega (arith, le)) active others) in
      nil-failing _ (
        disk_test m e
            ∙ (lt-sub (to_ℕ observed) (reserved limits active candidate) m).1
                (omega (arith, m_le, host)),
        tt,
      )
