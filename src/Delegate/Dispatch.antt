-- ===== src/Delegate/Dispatch.antt =====
-- Handle and HandleMsg of tcp/netdelegate.go: the handler of a command, and when it runs. `H` is
-- what a handler is.
pub mod Found
use cc_be_chat_test.Common.{
  ℕ, ◌+◌, ◌*◌, ◌<◌, ◌^◌, ◌≡◌, ◌≢◌, refl, ◌⊎◌, bit_or, Bool, false, Bool-cases, inl, inr, Option,
  none, some, List, [], ◌∷◌, ◌==◌, ==_iff, if◌then◌else◌, u32, arith, Outcome, ok, err, panic,
  ◌>>=◌,
}
use cc_be_chat_test.Common.Bits.{bit_or_fields}
use cc_be_chat_test.NetMsg.{NetMsg}
use cc_be_chat_test.NetMsg

-- `uint32(mainCmd)<<16 | uint32(subCmd)`
unfoldable pub command : ℕ → ℕ → ℕ
command main sub = bit_or (u32 (main * 2 ^ 16)) sub

module _ {H : Type 0} where
  unfoldable pub find : List (ℕ × H) → ℕ → Option H
  find [] cmd = none
  find ((key, cb) ∷ handlers) cmd =
      let rest = find handlers cmd in if key == cmd then some cb else rest

  unfoldable pub insert : List (ℕ × H) → ℕ → H → List (ℕ × H)
  insert [] cmd cb = (cmd, cb) ∷ []
  insert ((key, old) ∷ handlers) cmd cb =
      let rest = insert handlers cmd cb in
      if key == cmd then (key, cb) ∷ handlers else (key, old) ∷ rest

  unfoldable pub handle : List (ℕ × H) → ℕ → ℕ → H → List (ℕ × H)
  handle handlers main sub cb = insert handlers (command main sub) cb

  -- The handler that HandleMsg runs. `server` is whether the delegate's server, if it has one, is
  -- running; a panic on a message without a head is recovered.
  unfoldable pub handle_msg : List (ℕ × H) → Option Bool → NetMsg → Option H
  handle_msg handlers server msg =
      let chosen : Outcome (Unit {0}) ℕ = do
        main ← NetMsg.main_cmd msg
        sub ← NetMsg.sub_cmd msg
        ok (command main sub)
      in elim chosen [
        | ok cmd ↦ elim (find handlers cmd) [
          | none ↦ none
          | some cb ↦ elim server [
            | none ↦ some cb
            | some running ↦ if running then some cb else none
          ]
        ]
        | err e ↦ none
        | panic ↦ none
      ]

pub command_lem :
    (main sub : ℕ) → main < 65536 → sub < 65536 → command main sub ≡ main * 65536 + sub
unfolding command
command_lem main sub hm hs =
    let fits : u32 (main * 65536) ≡ main * 65536 = omega arith in
    rw (fits) (bit_or_fields 16 main sub hs)

module _ {H : Type 0} where
  find-insert_same :
      (handlers : List (ℕ × H)) (cmd : ℕ) (cb : H) → find (insert handlers cmd cb) cmd ≡ some cb
  unfolding find insert
  find-insert_same [] cmd cb = rw (((==_iff cmd cmd).1 refl)) refl
  find-insert_same ((key, old) ∷ handlers) cmd cb = elim (Bool-cases (key == cmd)) [
    | inl same ↦ rw (same, same) refl
    | inr other ↦ rw (other, other) (find-insert_same handlers cmd cb)
  ]

  find-insert_other :
      (handlers : List (ℕ × H)) (cmd cmd' : ℕ) (cb : H)
      → cmd ≢ cmd'
      → find (insert handlers cmd cb) cmd' ≡ find handlers cmd'
  unfolding find insert
  find-insert_other [] cmd cmd' cb ne =
      let differ : (cmd == cmd') ≡ false = ground arith in rw (differ) refl
  find-insert_other ((key, old) ∷ handlers) cmd cmd' cb ne = elim (Bool-cases (key == cmd)) [
    | inl same ↦ let differ : (key == cmd') ≡ false = ground arith in rw (same, differ) refl
    | inr other ↦ rw (other, find-insert_other handlers cmd cmd' cb ne) refl
  ]

  -- After `Handle`, the pair of commands it was given has its handler, and any other pair of
  -- 16-bit commands has the handler it had before: no two pairs share an entry.
  pub handle_lem :
      (handlers : List (ℕ × H)) (main sub main' sub' : ℕ) (cb : H)
      → main < 65536
      → sub < 65536
      → main' < 65536
      → sub' < 65536
      → (main ≢ main') ⊎ (sub ≢ sub')
      → (find (handle handlers main sub cb) (command main sub) ≡ some cb)
        × (find (handle handlers main sub cb) (command main' sub')
            ≡ find handlers (command main' sub'))
  unfolding handle
  handle_lem handlers main sub main' sub' cb hm hs hm' hs' differ =
      let e = command_lem main sub hm hs in
      let e' = command_lem main' sub' hm' hs' in
      (
        find-insert_same handlers (command main sub) cb,
        find-insert_other handlers (command main sub) (command main' sub') cb (λ same. elim differ [
          | inl ne ↦ ne (omega (arith, e, e', same))
          | inr ne ↦ ne (omega (arith, e, e', same))
        ]),
      )
