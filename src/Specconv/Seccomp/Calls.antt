-- ===== src/Specconv/Seccomp/Calls.antt =====
-- What a profile is converted to.
use sysbox_runc.Prelude.{
  ◌≡◌, ◌∙◌, refl, ap, sym, arith, Bool, Option, some, List, [], ◌∷◌, ◌++◌, String, ok, value_of,
  ok_inj, string_eq, map, Bool-cases, inl, inr,
}
use sysbox_runc.Specconv.MountOptions.{lookup}
use sysbox_runc.Specconv.Seccomp.{
  Action, LinuxCall, LinuxProfile, Call, Profile, bad_action, actions, or_error,
  convert_string_to_action, convert_archs, convert_args, convert_names, convert_calls, setup_flags,
  convert_profile, setup_seccomp, is_disabled,
}

-- Every name of every block, with the action that the block's action names.
unfoldable pub named_actions : List LinuxCall → List (String × Option Action)
named_actions [] = []
named_actions (call ∷ calls) =
    map (λ name. (name, lookup actions call.action)) call.names ++ named_actions calls

abbrev pub name_and_action : Call → String × Option Action
name_and_action c = (c.name, some c.action)

map-append :
    (f g : List Call)
    → map name_and_action (f ++ g) ≡ map name_and_action f ++ map name_and_action g
map-append [] g = refl
map-append (c ∷ f) g = ap (λ xs. name_and_action c ∷ xs) (map-append f g)

convert_names_lem :
    (call : LinuxCall) (action : Action) (names : List String) (out : List Call)
    → convert_names call action names ≡ ok out
    → map name_and_action out ≡ map (λ name. (name, some action)) names
unfolding convert_names
convert_names_lem call action [] out h = ground arith
convert_names_lem call action (name ∷ names) out h =
    let args = value_of (convert_args call.args) _ out h in
    let rest = value_of (convert_names call action names) _ out args.1.1 in
    ground (arith, convert_names_lem call action names rest.0 rest.1.0)

action_lem :
    (s : String) (a : Action) → convert_string_to_action s ≡ ok a → lookup actions s ≡ some a
unfolding convert_string_to_action
action_lem s a h = of_or (lookup actions s) h
  where
    of_or : (found : Option Action) → or_error (bad_action s) found ≡ ok a → found ≡ some a
    of_or found e = ground arith

convert_calls_lem :
    (calls : List LinuxCall) (out : List Call)
    → convert_calls calls ≡ ok out
    → map name_and_action out ≡ named_actions calls
unfolding convert_calls named_actions
convert_calls_lem [] out h = ground arith
convert_calls_lem (call ∷ calls) out h =
    let action = value_of (convert_string_to_action call.action) _ out h in
    let first = value_of (convert_names call action.0 call.names) _ out action.1.1 in
    let rest = value_of (convert_calls calls) _ out first.1.1 in
    ap (λ o. map name_and_action o) (sym (ok_inj rest.1.1))
    ∙ map-append first.0 rest.0
    ∙ ap (λ xs. xs ++ map name_and_action rest.0)
        (convert_names_lem call action.0 call.names first.0 first.1.0
          ∙ ap (λ found. map (λ name. (name, found)) call.names)
              (sym (action_lem call.action action.0 action.1.0)))
    ∙ ap (λ ys. map (λ name. (name, lookup actions call.action)) call.names ++ ys)
        (convert_calls_lem calls rest.0 rest.1.0)

convert_profile_calls :
    (supported : String → Bool) (config : LinuxProfile) (profile : Profile)
    → convert_profile supported config ≡ ok profile
    → map name_and_action profile.syscalls ≡ named_actions config.syscalls
unfolding convert_profile
convert_profile_calls supported config profile h =
    let checked = value_of (setup_flags supported config.flags) _ profile h in
    let architectures = value_of (convert_archs config.architectures) _ profile checked.1.1 in
    let action =
      value_of (convert_string_to_action config.default_action) _ profile architectures.1.1 in
    let calls = value_of (convert_calls config.syscalls) _ profile action.1.1 in
    ap (λ p. map name_and_action p.syscalls) (sym (ok_inj calls.1.1))
    ∙ convert_calls_lem config.syscalls calls.0 calls.1.0

-- If a profile is converted, it has one call for every name of every block, in their order, with the
-- action that the name of the block's action stands for.
pub setup_seccomp_calls :
    (supported : String → Bool) (config : LinuxProfile) (profile : Profile)
    → setup_seccomp supported (some config) ≡ ok (some profile)
    → map name_and_action profile.syscalls ≡ named_actions config.syscalls
unfolding setup_seccomp
setup_seccomp_calls supported config profile h =
    elim (Bool-cases (is_disabled supported config.default_action config.syscalls)) [
      | inl off ↦ ground arith
      | inr on ↦
          let converted =
            value_of (convert_profile supported config) (λ p. ok (some p)) (some profile)
              (ground arith) in
          convert_profile_calls supported config profile
            (converted.1.0 ∙ ap ok (ground (arith, converted.1.1)))
    ]
