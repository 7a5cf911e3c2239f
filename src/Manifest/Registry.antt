-- ===== src/Manifest/Registry.antt =====
-- `parse_registry`: the registries that it accepts.
use proof_forge_near.Prelude.{
  ◌≡◌, ◌↔◌, sym, ap, ◌∙◌, true, none, [], ◌∷◌, ◌++◌, append-nil, append_assoc, arith, Text, All,
}
use proof_forge_near.Py.Result.{ok}
use proof_forge_near.Py.Dict.{
  Dict, lookup, insert, NodupKeys, insert-NodupKeys, insert-new, lookup_middle,
}
use proof_forge_near.Manifest.{is_hex, add_entries, parse_registry}

abbrev pub HasHexDigest : Text × Text → Type 0
HasHexDigest e = is_hex e.1 ≡ true

add_entries_step :
    (name digest : Text) (rest acc : Dict Text)
    → lookup name acc ≡ none
    → is_hex digest ≡ true
    → add_entries ((name, digest) ∷ rest) acc ≡ add_entries rest (insert name digest acc)
unfolding add_entries
add_entries_step name digest rest acc n h = ground arith

add_entries_head :
    (name digest : Text) (rest acc out : Dict Text)
    → add_entries ((name, digest) ∷ rest) acc ≡ ok out
    → (lookup name acc ≡ none)
      × (is_hex digest ≡ true)
      × (add_entries rest (insert name digest acc) ≡ ok out)
unfolding add_entries
add_entries_head name digest rest acc out h = ground arith

add_entries_sound :
    (found acc out : Dict Text)
    → NodupKeys acc
    → add_entries found acc ≡ ok out
    → (out ≡ acc ++ found) × NodupKeys out × All HasHexDigest found
unfolding add_entries
add_entries_sound [] acc out u h =
    let e : acc ≡ out = cc in (sym e ∙ sym (append-nil acc), rw (← e) u, tt)
add_entries_sound ((name, digest) ∷ rest) acc out u h =
    let (fresh, hex, more) = add_entries_head name digest rest acc out h in
    let (e, nod, all) =
      add_entries_sound rest (insert name digest acc) out (insert-NodupKeys name digest acc u)
        more in
    (
      e
          ∙ (ap (λ d. d ++ rest) (insert-new name digest acc fresh)
              ∙ append_assoc acc ((name, digest) ∷ []) rest),
      nod,
      (hex, all),
    )

add_entries_complete :
    (found acc : Dict Text)
    → NodupKeys (acc ++ found)
    → All HasHexDigest found
    → add_entries found acc ≡ ok (acc ++ found)
unfolding add_entries
add_entries_complete [] acc u h = ap ok (sym (append-nil acc))
add_entries_complete ((name, digest) ∷ rest) acc u h =
    let fresh = lookup_middle name digest acc rest u in
    let assoc = append_assoc acc ((name, digest) ∷ []) rest in
    add_entries_step name digest rest acc fresh h.0
    ∙ rw (insert-new name digest acc fresh)
        (add_entries_complete rest (acc ++ ((name, digest) ∷ [])) (rw assoc u) h.1 ∙ ap ok assoc)

-- The registry is accepted exactly when no name is listed twice and every digest is a nonempty run
-- of lower-case hexadecimal digits, and its entries are then those listed, in order.
pub parse_registry_iff :
    (found entries : Dict Text)
    → (parse_registry found ≡ ok entries)
      ↔ ((entries ≡ found) × NodupKeys found × All HasHexDigest found)
unfolding parse_registry
parse_registry_iff found entries = (
  λ h. let (e, nod, hex) = add_entries_sound found [] entries tt h in (e, rw e at nod, hex),
  λ (e, nod, hex). rw e (add_entries_complete found [] nod hex),
)
