-- ===== src/Commands/Task.antt =====
-- The whole subtask `helper:call-cmd` (tasks/helpers/call-cmd.ts): the commands are parsed one after
-- another, and the calls that they have collected are dispatched. The task starts with no tokens and no
-- pools known.
use augmented_finance_protoc.Prelude.{
  String, List, some, if◌then◌else◌, Act, throw, ◌>>◌, for_each, map,
}
use augmented_finance_protoc.Helpers.Addresses.{falsy_or_zero_address}
use augmented_finance_protoc.Commands.Session.{named, Session}
use augmented_finance_protoc.Commands.Prepare.{CallCommand}
use augmented_finance_protoc.Commands.Dispatch.{Dispatch, dispatch}
use augmented_finance_protoc.Commands.Aliases.{Market}
use augmented_finance_protoc.Commands.Aliases.Run.{parse_command}

module _ {W : Type 0} (m : Market W) where
  unfoldable pub run_command : CallCommand → Act (Session W) (Unit {0})
  unfolding parse_command
  run_command c = parse_command m (map named c.roles) c.cmd c.args

  unfoldable pub dispatch_calls : String → Act (Session W) Dispatch
  unfolding dispatch
  dispatch_calls mode s =
      (dispatch m.net.encode_function_data mode s.calls s.all_flags s.all_static, s)

  unfoldable pub call_cmd : (ctl mode : String) → List CallCommand → Act (Session W) Dispatch
  unfolding run_command dispatch_calls for_each falsy_or_zero_address
  call_cmd ctl mode cmds =
      if falsy_or_zero_address m.net.lib (some ctl)
      then throw "Unknown MarketAddressController"
      else (do for_each run_command cmds; dispatch_calls mode)
