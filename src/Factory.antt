-- ===== src/Factory.antt =====
-- src/setops/memory_psi_factory.h, with the schemes and the interfaces of src/setops/psi/psi.h and
-- src/setops/pjc/pjc.h. The objects that `CreatePSI` and `CreatePJC` make are parameters; a scheme is
-- compared by its number, as `std::map` compares the enumerators.
pub mod Tests
use petace_set_ops.Base.{
  ℕ, List, [], ◌∷◌, Bool, true, false, Bytes, ◌==◌, Option, none, some, if◌then◌else◌,
}
use petace_set_ops.Net.{Proc, NetHandle}

-- `class PSI`: an object of a protocol, whose parameters are `Params` and whose state is `State`.
pub record Psi (Params State : Type 0) : Type 0 where
  pub init : Params → Proc State
  pub preprocess_data : State → List Bytes → List Bytes → List Bytes
  pub process : State → NetHandle → List Bytes → Proc (List Bytes)
  pub process_cardinality_only : State → NetHandle → List Bytes → Proc ℕ

pub data PsiScheme : Type 0 where
  ecdh_psi kkrt_psi vole_psi : PsiScheme

pub data PjcScheme : Type 0 where
  dpca_psi circuit_psi vole_pjc : PjcScheme

abbrev pub psi_number : PsiScheme → ℕ
psi_number ecdh_psi = 0
psi_number kkrt_psi = 1
psi_number vole_psi = 2

abbrev pub pjc_number : PjcScheme → ℕ
pjc_number dpca_psi = 0
pjc_number circuit_psi = 1
pjc_number vole_pjc = 2

module _ {ℓ} {K : Type 0} {V : Type ℓ} (number : K → ℕ) where
  -- `creator_map_.find(scheme)`
  unfoldable pub find : K → List (K × V) → Option V
  find k [] = none
  find k ((key, creator) ∷ creator_map) =
      if number key == number k then some creator else find k creator_map

  -- `creator_map_.insert(std::make_pair(scheme, creator))`: a scheme that is there keeps its creator.
  unfoldable pub register : K → V → List (K × V) → List (K × V)
  register k v [] = (k, v) ∷ []
  register k v ((key, creator) ∷ creator_map) =
      if number key == number k
      then (key, creator) ∷ creator_map
      else (key, creator) ∷ register k v creator_map

module _ {ℓ} {V : Type ℓ} where
  -- The two constructors.
  unfoldable pub psi_factory : V → V → List (PsiScheme × V)
  psi_factory create_ecdh create_kkrt =
      register psi_number kkrt_psi create_kkrt (register psi_number ecdh_psi create_ecdh [])

  unfoldable pub pjc_factory : V → List (PjcScheme × V)
  pjc_factory create_circuit = register pjc_number circuit_psi create_circuit []

  -- `none` where the source throws `PSI creator not registered.`
  unfoldable pub build_psi : List (PsiScheme × V) → PsiScheme → Option V
  build_psi creator_map scheme = find psi_number scheme creator_map

  unfoldable pub build_pjc : List (PjcScheme × V) → PjcScheme → Option V
  build_pjc creator_map scheme = find pjc_number scheme creator_map
