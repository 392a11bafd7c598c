-- ===== src/Circuit/Init.antt =====
-- `CircuitPSI::init` and `check_params` of src/setops/pjc/circuit_psi.cpp, over the libraries of Kkrt/Init.
use mathlib.Core.Path.{subst₂}
use petace_set_ops.Base.{String, ℕ, ◌^◌, ◌<◌, ◌≡◌, refl, Bool, true, false, Bytes, take, arith}
use petace_set_ops.Net.{Proc, done, ◌>>=◌, ◌>>◌}
use petace_set_ops.Net.Run.{Sys, Steps, Reach, joined}
use petace_set_ops.Net.Wire.{size_t, send_value, recv_value}
use petace_set_ops.Net.Meet.{Meets, Meets-cross, Meets-bind, Meets-every_schedule}
use petace_set_ops.Util.ParameterCheck.{int_tests, check_consistency}
use petace_set_ops.Util.ParameterCheck.Agreement.{check_consistency-verdict}
use petace_set_ops.Psi.{k_rand_seed_bytes_len}
use petace_set_ops.Kkrt.Init.{Setup, SetupLaws, agreed}
use petace_set_ops.Circuit.{CircuitPsi}

-- The values of the parameters.
pub record CircuitParams (setup : Setup) : Type 0 where
  pub is_sender : Bool
  pub epsilon : setup.Double
  pub epsilon_hint : setup.Double
  pub num_of_fun : ℕ
  pub num_of_fun_hint : ℕ

-- `generate_next` is what the generator yields after `generate`; `make_duet` is the network calls of the
-- constructor of `duet::Duet`.
module _ (setup : Setup) (generate_next : Bytes → Bytes) (make_duet : Bool → Proc (Unit {0})) where
  open setup use {double_tests, double_wire, block_wire, xor_block, generate, base_ot}

  unfoldable pub check_params : CircuitParams setup → Proc (Unit {0})
  check_params params = do
    check_consistency double_tests double_wire params.is_sender "epsilon" params.epsilon
    check_consistency double_tests double_wire params.is_sender "epsilon_hint" params.epsilon_hint
    check_consistency int_tests size_t params.is_sender "number of function" params.num_of_fun
    check_consistency int_tests size_t params.is_sender "number of hint function"
        params.num_of_fun_hint

  -- The seeds that the common generator yields to the first `process`; `own` is the block that the
  -- party's generator yields.
  unfoldable pub common_seeds : setup.Block → Proc (Bytes × Bytes)
  common_seeds own = do
    send_value block_wire own
    received ← recv_value block_wire
    let seed = take k_rand_seed_bytes_len (block_wire.encode (xor_block own received))
    done (generate seed, generate_next seed)

  -- the base transfers, the operations on shares, and the object
  unfoldable pub set_up_ot : CircuitParams setup → Bytes × Bytes → Proc CircuitPsi
  set_up_ot params (table_seed, hint_seed) = do
    base_ot params.is_sender
    make_duet params.is_sender
    done (record {
      is_sender = params.is_sender;
      num_of_fun = params.num_of_fun;
      num_of_fun_hint = params.num_of_fun_hint;
      table_seed = table_seed;
      hint_seed = hint_seed;
    })

  unfoldable pub init : setup.Block → CircuitParams setup → Proc CircuitPsi
  init own params = do check_params params; seeds ← common_seeds own; set_up_ot params seeds

-- The constructors of the two sides run together to their ends.
module _ (setup : Setup) (laws : SetupLaws setup) (generate_next : Bytes → Bytes)
    (make_duet : Bool → Proc (Unit {0}))
    (duet_Meets : Meets (make_duet true) (make_duet false) (done tt) (done tt))
    (own_s own_r : setup.Block) (epsilon epsilon_hint : setup.Double)
    (num_of_fun num_of_fun_hint : ℕ) where
  abbrev pub params_of : Bool → CircuitParams setup
  params_of is_sender = record {
    is_sender = is_sender;
    epsilon = epsilon;
    epsilon_hint = epsilon_hint;
    num_of_fun = num_of_fun;
    num_of_fun_hint = num_of_fun_hint;
  }

  abbrev seed : Bytes
  seed = take k_rand_seed_bytes_len (setup.block_wire.encode (setup.xor_block own_s own_r))

  -- The objects, with the seeds as the sender computes them.
  abbrev pub object_of : Bool → CircuitPsi
  object_of is_sender = record {
    is_sender = is_sender;
    num_of_fun = num_of_fun;
    num_of_fun_hint = num_of_fun_hint;
    table_seed = setup.generate seed;
    hint_seed = generate_next seed;
  }

  -- A `double` and a number that are the same on both sides pass their checks.
  double-Meets :
      (name : String) (x : setup.Double)
      → setup.double_tests.eq x x ≡ true
      → setup.double_wire.Fits x
      → Meets
          (check_consistency setup.double_tests setup.double_wire true name x)
          (check_consistency setup.double_tests setup.double_wire false name x)
          (done tt)
          (done tt)
  double-Meets name x same h =
      subst₂ (Meets _ _) (agreed setup.double_tests x name same)
        (agreed setup.double_tests x name same)
        (check_consistency-verdict setup.double_tests setup.double_wire name x x h h)

  number-Meets :
      (name : String) (x : ℕ)
      → x < 2 ^ 64
      → Meets
          (check_consistency int_tests size_t true name x)
          (check_consistency int_tests size_t false name x)
          (done tt)
          (done tt)
  number-Meets name x h =
      subst₂ (Meets _ _) (agreed int_tests x name (ground arith))
        (agreed int_tests x name (ground arith))
        (check_consistency-verdict int_tests size_t name x x h h)

  common_seeds-Meets :
      Meets
        (common_seeds setup generate_next make_duet own_s)
        (common_seeds setup generate_next make_duet own_r)
        (done (setup.generate seed, generate_next seed))
        (done (setup.generate seed, generate_next seed))
  unfolding common_seeds
  common_seeds-Meets =
      Meets-cross _ _ _ _ _ _ _ _ (setup.block_wire.length-encode own_s)
        (setup.block_wire.length-encode own_r)
        (rw
          (
            setup.block_wire.decode-encode own_s (laws.block_fits own_s),
            setup.block_wire.decode-encode own_r (laws.block_fits own_r),
            laws.xor_comm own_r own_s,
          )
          (0, refl))

  -- If the parties have the same numbers of functions and the same two epsilons, which are numbers, not
  -- NaNs, and which the connection transmits, then whatever calls the two `init` have made so far, in any interleaving, they go on to
  -- their ends, and the two objects differ only in their roles.
  pub init_same_seeds :
      (m : ℕ) (u : Sys CircuitPsi CircuitPsi)
      → setup.double_tests.eq epsilon epsilon ≡ true
      → setup.double_tests.eq epsilon_hint epsilon_hint ≡ true
      → setup.double_wire.Fits epsilon
      → setup.double_wire.Fits epsilon_hint
      → num_of_fun < 2 ^ 64
      → num_of_fun_hint < 2 ^ 64
      → Steps m
          (joined
            (init setup generate_next make_duet own_s (params_of true))
            (init setup generate_next make_duet own_r (params_of false)))
          u
      → Reach u (joined (done (object_of true)) (done (object_of false)))
  unfolding init check_params set_up_ot
  init_same_seeds m u same same' he he' hn hn' =
      Meets-every_schedule _ _ _ _ m u
        (Meets-bind _ _ _ _ tt tt _ _
          (Meets-bind _ _ _ _ tt tt _ _ (double-Meets "epsilon" epsilon same he) (
            Meets-bind _ _ _ _ tt tt _ _ (double-Meets "epsilon_hint" epsilon_hint same' he') (
              Meets-bind _ _ _ _ tt tt _ _ (number-Meets "number of function" num_of_fun hn)
                (number-Meets "number of hint function" num_of_fun_hint hn'))))
          (Meets-bind (set_up_ot setup generate_next make_duet (params_of true))
            (set_up_ot setup generate_next make_duet (params_of false)) _ _ _ _ _ _
            common_seeds-Meets
            (Meets-bind (λ _. make_duet true >> done (object_of true))
              (λ _. make_duet false >> done (object_of false)) _ _ tt tt _ _ laws.base_ot_Meets
              (Meets-bind (λ _. done (object_of true)) (λ _. done (object_of false)) _ _ tt tt _ _
                duet_Meets (0, refl)))))
        tt tt
