-- ===== src/Endpoint/SgList/Tests.antt =====
-- Two references cut into a scatter list of two entries.
use light_rpc.Prelude.{ℕ, ◌+◌, ◌*◌, refl, inl, inr, false, [], ◌∷◌, arith}
use light_rpc.IoBuf.Store.{Store}
use light_rpc.IoBuf.View.{BlockRef, IoBuf, small, empty_buf, ref_list, total, IsValid}
use light_rpc.Endpoint.SgList.Gather.{gather}
use light_rpc.Endpoint.SgList.Gather.Bytes.{list_total, list_refs}
use light_rpc.Endpoint.SgList.Gather.Rounds.{GatherOutcome, gather-Gathers}

abbrev blocks : Store
blocks = record {
  nshared = λ p. 3;
  user_data = λ p. false;
  size = λ p. 8;
  cap = λ p. 8160;
  data_meta = λ p. 0;
  bytes = λ p i. 10 * p + i;
  released = [];
}

abbrev ref_to : ℕ → ℕ → BlockRef
ref_to p n = record { offset = 0; length = n; block = p }

abbrev two : IoBuf
two = small (ref_to 1 4) (ref_to 2 3)

two-IsValid : IsValid two
unfolding ref_list total
two-IsValid = record {
  shape = inr (inr (omega arith, omega arith));
  each = (
    record { to_block = omega arith; in_word = omega arith },
    (record { to_block = omega arith; in_word = omega arith }, tt),
  );
  bounded = omega arith;
}

empty-IsValid : IsValid empty_buf
unfolding ref_list total
empty-IsValid = record { shape = inl (refl, refl); each = tt; bounded = omega arith }

abbrev data_of : ℕ → ℕ
data_of p = 8192 * p + 32

abbrev one_region : ℕ → ℕ
one_region addr = 7

gather-Gathers_example :
    GatherOutcome 4 0 10
      (empty_buf ∷ two ∷ [])
      empty_buf
      blocks
      (gather data_of one_region 10 7 4 0 (empty_buf ∷ two ∷ []) empty_buf blocks)
unfolding list_total list_refs ref_list total
gather-Gathers_example =
    gather-Gathers data_of one_region 10 7 4 0 (empty_buf ∷ two ∷ []) empty_buf blocks (omega arith)
      (record {
        valid = (empty-IsValid, (two-IsValid, tt));
        filled = empty-IsValid;
        total = omega arith;
        refs = omega arith;
        within = omega arith;
        word = omega arith;
      })
