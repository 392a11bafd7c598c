-- ===== src/Ecdh/Object.antt =====
-- `EcdhPSI` of src/setops/psi/ecdh_psi.h as an object of the interface `PSI`.
use petace_set_ops.Base.{ℕ, List}
use petace_set_ops.Factory.{Psi}
use petace_set_ops.Ecdh.{
  Ecc, Params, EcdhPsi, init, preprocess_data, process, process_cardinality_only,
}

abbrev pub ecdh_object : (ecc : Ecc) → ecc.SecretKey → (List ℕ → List ℕ) → Psi Params (EcdhPsi ecc)
ecdh_object ecc sk shuffle = record {
  init = init ecc sk;
  preprocess_data = λ self. preprocess_data;
  process = λ self net keys. process ecc self shuffle net keys;
  process_cardinality_only = λ self net keys. process_cardinality_only ecc self shuffle net keys;
}
