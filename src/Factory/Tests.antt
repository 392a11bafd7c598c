-- ===== src/Factory/Tests.antt =====
-- Runs of the factories: each builds the registered schemes, and no other.
use petace_set_ops.Base.{ℕ, ◌≡◌, refl, none, some}
use petace_set_ops.Factory.{
  ecdh_psi, kkrt_psi, vole_psi, circuit_psi, dpca_psi, find, register, psi_factory, pjc_factory,
  build_psi, build_pjc,
}

psi_run :
    (build_psi (psi_factory {V = ℕ} 5 6) ecdh_psi ≡ some 5)
    × (build_psi (psi_factory {V = ℕ} 5 6) kkrt_psi ≡ some 6)
    × (build_psi (psi_factory {V = ℕ} 5 6) vole_psi ≡ none)
unfolding build_psi psi_factory find register
psi_run = (refl, refl, refl)

pjc_run :
    (build_pjc (pjc_factory {V = ℕ} 7) circuit_psi ≡ some 7)
    × (build_pjc (pjc_factory {V = ℕ} 7) dpca_psi ≡ none)
unfolding build_pjc pjc_factory find register
pjc_run = (refl, refl)
