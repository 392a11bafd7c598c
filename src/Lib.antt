-- ===== src/Lib.antt =====
-- Verification of PETAce-SetOps: private set intersection between two parties over a connection.
--
-- The program. A protocol object (src/setops/psi, src/setops/pjc) is made by a factory
-- (src/setops/memory_psi_factory.h), initialised with parameters that the two parties compare over the
-- network, and run on each party's list of keys, which a provider (src/setops/data) reads from a file.
-- The helpers (src/setops/util) permute vectors, serialize strings and check parameters. Paths are from
-- the root of the repository.
--
-- The files.
--   Base     names of the libraries, lists over the native numbers.
--   Net      a party as a tree of the calls `send_data` and `recv_data` and of its exceptions; two
--            parties with a queue each way, their steps in every interleaving (Net/Run); whatever
--            two parties have done, they can go on to the end of any other schedule
--            (Net/Confluence); the bytes of integers (Net/Wire); sequential composition of what two
--            parties do together (Net/Meet).
--   Std      `operator<` of byte vectors, `std::sort`, `std::binary_search`.
--   Util     src/setops/util/permutation.h, serialize.h, parameter_check.h and dummy_data_util.h.
--   Psi      src/setops/util/defines.h, and the loops that the protocols share.
--   Ecdh     src/setops/psi/ecdh_psi.h and ecdh_psi.cpp: one definition per method, under its name.
--   Kkrt     src/setops/psi/kkrt_psi.h and kkrt_psi.cpp: `init` (Kkrt/Init), both roles of `process`, and
--            their loops over the hash tables (Kkrt/Tables).
--   Circuit  src/setops/pjc/circuit_psi.h and circuit_psi.cpp: `init` (Circuit/Init), both roles of
--            `process`, and their hash maps and filters (Circuit/Tables). Circuit/Joint names the
--            values of the two parties together.
--   Csv      src/setops/data/csv_data_provider.h and csv_data_provider.cpp: `std::getline` with the flags
--            of the stream, the four batch operations, rewinding, and writing.
--   Factory  src/setops/memory_psi_factory.h, and the interface of src/setops/psi/psi.h.
--
-- Bounds and fuel. A `std::size_t` is sent as eight bytes, an `int` as four; products of sizes wrap
-- at 2 ^ 64, and positions that are cast to `int` keep 32 bits with their sign. Strings that are
-- read back have less than 2 ^ 31 bytes. A theorem that needs sizes to fit says so. The binary
-- search runs on the length of its window as fuel, each round at least halves it; the row count
-- runs on one round more than the file has characters, each round takes one or ends; a decimal
-- number has at most twenty digits.
--
-- Parameters. The elliptic-curve cipher of PETAce-Solo (`Ecc`, with the laws `EccLaws` that its
-- scalar multiplications commute and that points are read back), its hash tables (`Solo` with the
-- laws `TableLaws` of Kkrt/Contract for the two tables of a pair of key lists, and `Hashing` with
-- the laws `HashingLaws` that a table without a stash holds each item where a function puts it, and
-- `TakenLaws` that it holds nothing else), the oblivious transfer of PETAce-Verse (`Verse`, with
-- the laws `VerseLaws`; `Setup` for `init`, with `SetupLaws` and what the constructor of
-- `duet::Duet` does over the connection), the generators (`Pads`), the operations on shares of
-- PETAce-Duet (`Duet`, with the laws `DuetLaws`), the permutation that `std::shuffle` makes, and
-- the objects that the factory's creators make. Circuit/Toy and the modules called Tests have
-- concrete instances.
--
-- Not modelled: a second `process` on one circuit PSI object, the JSON parameters, logging, OpenMP, the clock,
-- the examples, and the tests.
pub mod Base
pub mod Circuit
pub mod Csv
pub mod Ecdh
pub mod Factory
pub mod Kkrt
pub mod Net
pub mod Psi
pub mod Std
pub mod Util
