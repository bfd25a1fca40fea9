-- ===== src/Tests/Aliases.antt =====
-- The aliases of commands at concrete data.
use mathlib.Core.List.{reverse}
use augmented_finance_protoc.Prelude.{
  String, List, ℕ, suc, ◌≤◌, ◌<◌, ◌≡◌, refl, false, [], ◌∷◌, none, some, ok, ◌==◌, pos, negsuc,
  if◌then◌else◌,
}
use augmented_finance_protoc.Access.Flags.{access_flags}
use augmented_finance_protoc.Commands.Session.{int, Session, new_session, FunctionFragment}
use augmented_finance_protoc.Commands.Aliases.{Market, meltdown_timestamp}
use augmented_finance_protoc.Commands.Aliases.Dates.{meltdown_timestamp_lem}
use augmented_finance_protoc.Commands.Prepare.{prepare_args}
use augmented_finance_protoc.Commands.Dispatch.{send_batch, send_calls}
use augmented_finance_protoc.Commands.Task.{call_cmd}
use augmented_finance_protoc.Tests.{sample_lib}

abbrev sample_market : Market ℕ
sample_market = record {
  net = record {
    network = "main";
    lib = sample_lib;
    ac_address = "0x8";
    get_address = λ role w. (ok "0x7", suc w);
    provider_registry = none;
    get_function = λ contract name. ok (record { fn_name = name; is_view_or_pure = false });
    encode_function_data = λ contract name args. ok name;
  };
  fetch_tokens = λ w. (ok ([], 0), w);
  list_pools = λ w. (ok [], w);
  named_reward_pool = λ name w. (ok "0x4", w);
  fallback_oracle = λ w. (ok "0x3", w);
  baseline_percentage = λ pool w. (ok 100, w);
  boost_factor = λ pool w. (ok 10000, w);
  stake_token_data = λ token w. (ok ("", ""), w);
  parse_units = λ text decimals. ok 5;
  parse_int = λ text. some 7;
  is_hex_prefixed = λ text. text == "0x7";
  parse_date = λ text. some 2208988800000;
  number_text = λ n. "5";
  settled = λ updates. reverse updates;
}

abbrev sample_session : Session ℕ
sample_session = new_session [] 0

abbrev set_boost_factor : FunctionFragment
set_boost_factor = record { fn_name = "setBoostFactor"; is_view_or_pure = false }

-- The factor of one pool is up to date.
abbrev old_factor : String → ℕ
old_factor pool = if pool == "0x1" then 70000 else 10000

abbrev boosted_market : Market ℕ
boosted_market = record sample_market { boost_factor = λ pool w. (ok (old_factor pool), w) }

abbrev booster_found : Session ℕ
booster_found = record sample_session { chain = 1 }

meltdown_timestamp_lem_example :
    (2208988800 < 2147483648
      → meltdown_timestamp sample_market "2040-01-01" ≡ ok (int (pos 2208988800)))
    × (2147483648 ≤ 2208988800
        → 2208988800 < 4294967296
        → meltdown_timestamp sample_market "2040-01-01" ≡ ok (int (negsuc 2085978495)))
meltdown_timestamp_lem_example =
    meltdown_timestamp_lem sample_market "2040-01-01" 2208988800000 refl refl

-- A single command with a role is sent through the access controller.
command_sent :
    (call_cmd sample_market "0x8" "call"
      (prepare_args [] ("STAKE_ADMIN/MarketAccessController@0x5.pause" ∷ "x" ∷ []))
      sample_session).0
    ≡ ok (
        send_batch
          (record { access_flags = 32; call_flag = 0; call_addr = "0x5"; call_data = "pause" } ∷ [])
          false)
unfolding call_cmd prepare_args sample_lib access_flags send_calls
command_sent = refl
