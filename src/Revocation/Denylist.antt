-- ===== src/Revocation/Denylist.antt =====
-- Revoke and IsRevoked of internal/pki/revoke.go, one after the other.
use houdry.Prelude.{
  String, Bool, true, false, ◌≡◌, refl, ◌∙◌, sym, List, [], ◌∷◌, Option, none, some, arith,
  if◌then◌else◌, is_some, str_eq, ◌||◌, ◌&&◌, not,
}
use houdry.Prelude.Maps.{Map, get, put, get-put}
use houdry.Revocation.{Revocation, read_rows, load, save, revoke, is_revoked}

-- The serials that a list of rows denies, whatever was there before.
row_for : String → List (String × String) → Bool
row_for k [] = false
row_for k ((serial, node) ∷ rows) = str_eq serial k || row_for k rows

get-read_rows :
    (k : String) (m : Map String) (rows : List (String × String))
    → is_some (get k (read_rows m rows)) ≡ (row_for k rows || is_some (get k m))
unfolding read_rows row_for
get-read_rows k m [] = refl
get-read_rows k m ((serial, node) ∷ rows) =
    ground (arith, get-read_rows k (put serial node m) rows, get-put serial k node m)

get-row_for : (k : String) (m : Map String) → is_some (get k m) ≡ row_for k m
unfolding get row_for
get-row_for k [] = refl
get-row_for k ((serial, node) ∷ m) = ground (arith, get-row_for k m)

get-nil : (k : String) → is_some (get {V = String} k []) ≡ false
unfolding get
get-nil k = refl

or_false : (b : Bool) → (b || false) ≡ b
or_false true = refl
or_false false = refl

reread : (k : String) (m : Map String) → is_some (get k (read_rows [] m)) ≡ is_some (get k m)
reread k m =
    get-read_rows k [] m ∙ (rw (get-nil k) (or_false (row_for k m)) ∙ sym (get-row_for k m))

denied-put :
    (serial node k : String) (m : Map String)
    → is_some (get k (put serial node m)) ≡ (if str_eq serial k then true else is_some (get k m))
denied-put serial node k m = ground (arith, get-put serial k node m)

by_cases :
    (serial node k : String) (m : Map String) (disk : Option (List (String × String))) (w : Bool)
    → is_revoked k (revoke serial node (record { serials = m; disk = disk; writable = w })).0 ≡ (
        if str_eq serial k && (w || not (is_some disk))
        then true
        else is_revoked k (record { serials = m; disk = disk; writable = w }))
unfolding is_revoked revoke load save
by_cases serial node k m none true =
    reread k (put serial node m) ∙ (denied-put serial node k m ∙ ground arith)
by_cases serial node k m none false = denied-put serial node k m ∙ ground arith
by_cases serial node k m (some rows) true =
    reread k (put serial node (read_rows [] rows))
    ∙ (denied-put serial node k (read_rows [] rows) ∙ ground arith)
by_cases serial node k m (some rows) false = ground arith

-- A revocation that could be written denies its serial from then on and changes the answer for no
-- other serial; one that could not be written counts only while there is no file to read again.
pub is_revoked-revoke :
    (serial node k : String) (r : Revocation)
    → is_revoked k (revoke serial node r).0
      ≡ (if str_eq serial k && (r.writable || not (is_some r.disk)) then true else is_revoked k r)
is_revoked-revoke serial node k r = by_cases serial node k r.serials r.disk r.writable
