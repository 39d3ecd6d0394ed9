-- ===== src/Command/Spec.antt =====
-- crates/cageforge-command/src/command.rs: a program and its arguments.
use cageforge.Base.{
  ◌≡◌, ap, sym, arith, List, [], ◌∷◌, ◌++◌, append_assoc, append-nil, any, is_empty, if◌then◌else◌,
  Result, ok, err, ◌>>◌, fail_if,
}
use cageforge.Command.Error.{CommandError}
use cageforge.Command.Names.{OsString, contains_nul}

pub record CommandSpec : Type 0 where
  pub program : OsString
  pub args : List OsString

unfoldable pub validate_program : OsString → Result CommandError (Unit {0})
validate_program program = do
  fail_if (is_empty program) CommandError.empty_program
  fail_if (contains_nul program) CommandError.program_contains_nul

unfoldable pub validate_argument : OsString → Result CommandError (Unit {0})
validate_argument argument = fail_if (contains_nul argument) CommandError.argument_contains_nul

-- `CommandSpec::new`
unfoldable pub new_command : OsString → Result CommandError CommandSpec
unfolding validate_program
new_command program = do validate_program program; ok (record { program = program; args = [] })

unfoldable pub with_arg : CommandSpec → OsString → Result CommandError CommandSpec
unfolding validate_argument
with_arg command argument = do
  validate_argument argument
  ok (record command { args = command.args ++ (argument ∷ []) })

unfoldable pub with_args : CommandSpec → List OsString → Result CommandError CommandSpec
unfolding validate_argument
with_args command [] = ok command
with_args command (argument ∷ arguments) =
    validate_argument argument
    >> with_args (record command { args = command.args ++ (argument ∷ []) }) arguments

-- Arguments are all appended, in their order, where none has a NUL; otherwise none is.
pub with_args_lem :
    (command : CommandSpec) (arguments : List OsString)
    → with_args command arguments ≡ (
        if any contains_nul arguments
        then err CommandError.argument_contains_nul
        else ok (record command { args = command.args ++ arguments }))
unfolding with_args
with_args_lem command [] =
    ap (λ args. ok (record command { args = args })) (sym (append-nil command.args))
with_args_lem command (a ∷ arguments) =
    let rest = with_args_lem (record command { args = command.args ++ (a ∷ []) }) arguments in
    ground (arith, rest, append_assoc command.args (a ∷ []) arguments)
