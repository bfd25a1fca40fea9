-- ===== src/Commands/Aliases/Dates.antt =====
-- The dates that `setMeltdown` can set.
use augmented_finance_protoc.Prelude.{
  ℕ, ◌-◌, ◌/◌, ◌≤◌, ◌<◌, String, ◌≡◌, refl, false, some, arith, ok, to_int32, pos, negsuc,
}
use augmented_finance_protoc.Commands.Session.{int}
use augmented_finance_protoc.Commands.Aliases.{Market, meltdown_timestamp}

to_int32-pos : (n : ℕ) → n < 2147483648 → to_int32 n ≡ pos n
unfolding to_int32
to_int32-pos n h = ground arith

to_int32-negsuc : (n : ℕ) → 2147483648 ≤ n → n < 4294967296 → to_int32 n ≡ negsuc (4294967295 - n)
unfolding to_int32
to_int32-negsuc n h g = ground arith

-- A date before 2038-01-19 03:14:08 UTC is set by its seconds; from then on until 2106 the timestamp is
-- negative, the seconds less 2 ^ 32, although the timestamps of the contracts would hold it.
pub meltdown_timestamp_lem :
    {W : Type 0} (m : Market W) (date : String) (ms : ℕ)
    → m.is_hex_prefixed date ≡ false
    → m.parse_date date ≡ some ms
    → (ms / 1000 < 2147483648 → meltdown_timestamp m date ≡ ok (int (pos (ms / 1000))))
      × (2147483648 ≤ ms / 1000
          → ms / 1000 < 4294967296
          → meltdown_timestamp m date ≡ ok (int (negsuc (4294967295 - ms / 1000))))
unfolding meltdown_timestamp
meltdown_timestamp_lem m date ms x d = (
  λ h. rw (x, d, to_int32-pos (ms / 1000) h) refl,
  λ h g. rw (x, d, to_int32-negsuc (ms / 1000) h g) refl,
)
