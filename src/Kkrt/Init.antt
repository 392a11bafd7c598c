-- ===== src/Kkrt/Init.antt =====
-- `KkrtPSI::init` and `check_params` of src/setops/psi/kkrt_psi.cpp. The type `double` with its tests
-- and its bytes, the operators of `verse::block`, the generator that is seeded with a block's bytes,
-- and the base oblivious transfer are parameters.
use mathlib.Core.Path.{subst₂}
use petace_set_ops.Base.{
  String, ℕ, ◌^◌, ◌<◌, ◌≡◌, refl, List, Bool, true, false, Bytes, take, if◌then◌else◌, arith,
}
use petace_set_ops.Net.{Proc, done, fail, disagreement, ◌>>=◌, ◌>>◌}
use petace_set_ops.Net.Run.{Sys, Steps, Reach, joined}
use petace_set_ops.Net.Wire.{Wire, size_t, send_value, recv_value}
use petace_set_ops.Net.Meet.{Meets, Meets-cross, Meets-bind, Meets-every_schedule}
use petace_set_ops.Util.ParameterCheck.{Comparable, int_tests, check_consistency}
use petace_set_ops.Util.ParameterCheck.Agreement.{check_consistency-verdict}
use petace_set_ops.Psi.{k_rand_seed_bytes_len}
use petace_set_ops.Kkrt.{KkrtPsi}
use petace_set_ops.Kkrt.Phases.{sender, receiver}

-- What `init` takes from the language and the libraries.
pub record Setup : Type 1 where
  pub Double : Type 0
  pub double_tests : Comparable Double
  pub double_wire : Wire Double
  pub Block : Type 0
  pub block_wire : Wire Block
  pub xor_block : Block → Block → Block
  pub generate : Bytes → Bytes
  pub base_ot : Bool → Proc (Unit {0})

-- What it relies on: blocks are combined in either order, every block
-- can be sent, and the base transfers of the two sides run together to their ends.
pub record SetupLaws (setup : Setup) : Type 0 where
  pub xor_comm : (a b : setup.Block) → setup.xor_block a b ≡ setup.xor_block b a
  pub block_fits : (b : setup.Block) → setup.block_wire.Fits b
  pub base_ot_Meets : Meets (setup.base_ot true) (setup.base_ot false) (done tt) (done tt)

-- The values of the parameters.
pub record KkrtParams (setup : Setup) : Type 0 where
  pub is_sender : Bool
  pub epsilon : setup.Double
  pub num_of_fun : ℕ
  pub sender_obtain_result : Bool

module _ (setup : Setup) where
  open setup use {double_tests, double_wire, block_wire, xor_block, generate, base_ot}

  unfoldable pub check_params : KkrtParams setup → Proc (Unit {0})
  check_params params = do
    check_consistency double_tests double_wire params.is_sender "epsilon" params.epsilon
    check_consistency int_tests size_t params.is_sender "number of function" params.num_of_fun

  -- `own` is the block that the party's generator yields.
  unfoldable pub common_seed : setup.Block → Proc Bytes
  common_seed own = do
    send_value block_wire own
    received ← recv_value block_wire
    done (generate (take k_rand_seed_bytes_len (block_wire.encode (xor_block own received))))

  -- the base transfers, and the object
  unfoldable pub set_up_ot : KkrtParams setup → Bytes → Proc KkrtPsi
  set_up_ot params seed = do
    base_ot params.is_sender
    done (record {
      is_sender = params.is_sender;
      sender_obtain_result = params.sender_obtain_result;
      num_of_fun = params.num_of_fun;
      seed = seed;
    })

  unfoldable pub init : setup.Block → KkrtParams setup → Proc KkrtPsi
  unfolding check_params common_seed set_up_ot
  init own params = do check_params params; seed ← common_seed own; set_up_ot params seed

  -- `preprocess_data` leaves its output parameter as it is.
  unfoldable pub preprocess_data : List Bytes → List Bytes → List Bytes
  preprocess_data input_keys preprocessed_keys = preprocessed_keys

-- A party whose value passes its own test returns.
pub agreed :
    {T : Type 0} (c : Comparable T) (v : T) (name : String)
    → c.eq v v ≡ true
    → (if c.eq v v then done (tt {0}) else fail (disagreement name)) ≡ done tt
agreed c v name e = rw e refl

module _ (setup : Setup) (laws : SetupLaws setup) (own_s own_r : setup.Block)
    (epsilon : setup.Double) (num_of_fun : ℕ) (a b : Bool) where
  abbrev pub sender_params : KkrtParams setup
  sender_params = record {
    is_sender = true;
    epsilon = epsilon;
    num_of_fun = num_of_fun;
    sender_obtain_result = a;
  }

  abbrev pub receiver_params : KkrtParams setup
  receiver_params = record {
    is_sender = false;
    epsilon = epsilon;
    num_of_fun = num_of_fun;
    sender_obtain_result = b;
  }

  -- the seed, as the sender computes it
  abbrev pub seed_of : Bytes
  seed_of =
      setup.generate
        (take k_rand_seed_bytes_len (setup.block_wire.encode (setup.xor_block own_s own_r)))

  check_params-Meets :
      setup.double_tests.eq epsilon epsilon ≡ true
      → setup.double_wire.Fits epsilon
      → num_of_fun < 2 ^ 64
      → Meets
          (check_params setup sender_params)
          (check_params setup receiver_params)
          (done tt)
          (done tt)
  unfolding check_params
  check_params-Meets same he hn =
      Meets-bind _ _ _ _ tt tt _ _
        (subst₂ (Meets _ _) (agreed setup.double_tests epsilon "epsilon" same)
          (agreed setup.double_tests epsilon "epsilon" same)
          (check_consistency-verdict setup.double_tests setup.double_wire "epsilon" epsilon epsilon
            he he))
        (subst₂ (Meets _ _) (agreed int_tests num_of_fun "number of function" (ground arith))
          (agreed int_tests num_of_fun "number of function" (ground arith))
          (check_consistency-verdict int_tests size_t "number of function" num_of_fun num_of_fun hn
            hn))

  common_seed-Meets :
      Meets (common_seed setup own_s) (common_seed setup own_r) (done seed_of) (done seed_of)
  unfolding common_seed
  common_seed-Meets =
      Meets-cross _ _ _ _ _ _ _ _ (setup.block_wire.length-encode own_s)
        (setup.block_wire.length-encode own_r)
        (rw
          (
            setup.block_wire.decode-encode own_s (laws.block_fits own_s),
            setup.block_wire.decode-encode own_r (laws.block_fits own_r),
            laws.xor_comm own_r own_s,
          )
          (0, refl))

  set_up_ot-Meets :
      Meets
        (set_up_ot setup sender_params seed_of)
        (set_up_ot setup receiver_params seed_of)
        (done (sender a num_of_fun seed_of))
        (done (receiver b num_of_fun seed_of))
  unfolding set_up_ot
  set_up_ot-Meets =
      Meets-bind (λ _. done (sender a num_of_fun seed_of))
        (λ _. done (receiver b num_of_fun seed_of)) _ _ tt tt _ _ laws.base_ot_Meets (0, refl)

  -- If the parties have the same number of functions and the same epsilon, which is a number, not a NaN,
  -- and which the connection transmits, then whatever calls the two `init` have made so far, in any interleaving, they go on to
  -- their ends, and the two objects have the same seed and the same number of functions.
  pub init_same_seed :
      (m : ℕ) (u : Sys KkrtPsi KkrtPsi)
      → setup.double_tests.eq epsilon epsilon ≡ true
      → setup.double_wire.Fits epsilon
      → num_of_fun < 2 ^ 64
      → Steps m (joined (init setup own_s sender_params) (init setup own_r receiver_params)) u
      → Reach u (joined (done (sender a num_of_fun seed_of)) (done (receiver b num_of_fun seed_of)))
  unfolding init
  init_same_seed m u same he hn =
      Meets-every_schedule _ _ _ _ m u
        (Meets-bind _ _ _ _ tt tt _ _ (check_params-Meets same he hn) (
          Meets-bind (set_up_ot setup sender_params) (set_up_ot setup receiver_params) _ _ seed_of
            seed_of _ _ common_seed-Meets set_up_ot-Meets))
        tt tt
