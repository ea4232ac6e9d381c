-- ===== src/Checkout/Lost.antt =====
-- An address that is created while a removal waits for its answer.
use coffix.Prelude.{
  ◌-◌, ◌≡◌, refl, sym, subst, true, false, not, none, some, List, [], ◌∷◌, ◌++◌, Text, if_ind,
  arith,
}
use coffix.Storage.{ok}
use coffix.Checkout.{
  Address, Removal, State, has_id, is_listed, without, add_created, on_saved, on_removed, saved,
  remove_settled, handle, run,
}
use coffix.Checkout.Laws.{is_listed-head}

is_listed-append :
    (created : Address) (addresses : List Address)
    → is_listed created.id (addresses ++ created ∷ []) ≡ true
is_listed-append created [] = is_listed-head created []
is_listed-append created (address ∷ addresses) =
    let rest = is_listed-append created addresses in ground (arith, rest)

is_listed-without :
    (id removed : Text) (addresses : List Address)
    → is_listed id addresses ≡ false
    → is_listed id (without removed addresses) ≡ false
is_listed-without id removed [] e = e
is_listed-without id removed (address ∷ addresses) e =
    let rest = is_listed-without id removed addresses (ground (arith, e)) in
    if_ind (λ kept. is_listed id kept ≡ false) (not (has_id removed address)) _ _
      (λ kept. ground (arith, e, rest)) (λ dropped. rest)

-- The page after the answer of the creation.
abbrev with_created : Address → State → State
with_created created s =
    add_created created (record s { saving_address = false; open_creates = s.open_creates - 1 })

on_saved-saving :
    (created : Address) (s : State)
    → s.saving_address ≡ true
    → on_saved (ok created) s ≡ with_created created s
on_saved-saving created s saving =
    if_ind (λ t. t ≡ with_created created s) s.saving_address _ _ (λ e. refl) (λ idle. cc)

-- The answer of a removal shows the addresses that were shown when it was pressed, less the removed one:
-- an address that was created while the removal waited for its answer, and is shown until then, is shown
-- no more once no removal waits.
pub saved_lost :
    (created : Address) (removal : Removal) (s : State)
    → s.removing ≡ some removal
    → s.saving_address ≡ true
    → is_listed created.id removal.seen ≡ false
    → (is_listed created.id (run (saved (ok created) ∷ []) s).addresses ≡ true)
      × (is_listed created.id (run (saved (ok created) ∷ remove_settled (ok tt) ∷ []) s).addresses
          ≡ false)
      × ((run (saved (ok created) ∷ remove_settled (ok tt) ∷ []) s).removing ≡ none)
unfolding run handle
saved_lost created removal s removing saving unseen =
    subst
      (λ t.
        (is_listed created.id t.addresses ≡ true)
        × (is_listed created.id (on_removed t.removing (ok tt) t).addresses ≡ false)
        × ((on_removed t.removing (ok tt) t).removing ≡ none))
      (sym (on_saved-saving created s saving))
      (subst
        (λ r.
          (is_listed created.id (s.addresses ++ created ∷ []) ≡ true)
          × (is_listed created.id (on_removed r (ok tt) (with_created created s)).addresses ≡ false)
          × ((on_removed r (ok tt) (with_created created s)).removing ≡ none))
        (sym removing)
        (
          is_listed-append created s.addresses,
          is_listed-without created.id removal.removed_id removal.seen unseen,
          refl,
        ))
