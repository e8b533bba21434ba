-- ===== src/Network/ServerBase/Sessions.antt =====
-- The connections as ENet sees them: which peer is connected, and which client object was made for
-- it. What ENet promises of its events is stated over this list alone.
use kge.Prelude.{
  ℕ, suc, ◌≡◌, ◌<◌, refl, ◌==◌, Option, none, some, List, [], ◌∷◌, arith, if◌then◌else◌, length,
}
use kge.Support.BitStream.{u32_mod}
use kge.Network.ServerBase.{Event, nothing, connect, disconnect, receive}

abbrev pub Sessions : Type 0
Sessions = List (ℕ × ℕ)

unfoldable pub session : ℕ → Sessions → Option ℕ
session p [] = none
session p ((q, c) ∷ r) = if q == p then some c else session p r

unfoldable pub owner : ℕ → Sessions → Option ℕ
owner c [] = none
owner c ((p, d) ∷ r) = if d == c then some p else owner c r

unfoldable pub close : ℕ → Sessions → Sessions
close p [] = []
close p ((q, c) ∷ r) = let rest = close p r in if q == p then r else (q, c) ∷ rest

-- No peer and no client stands in it twice.
abbrev pub IsApart : Sessions → Type 0
IsApart [] = Unit {0}
IsApart ((p, c) ∷ r) = (session p r ≡ none) × (owner c r ≡ none) × IsApart r

-- ENet reports a connection of a peer that has none, and `new` an address that is not in use; a
-- disconnection and a packet come from a peer that is connected, a packet below 4 GiB.
abbrev pub IsLegal : Sessions → Event → Type 0
IsLegal r nothing = Unit {0}
IsLegal r (connect p c) = (session p r ≡ none) × (owner c r ≡ none)
IsLegal r (disconnect p) = (c : ℕ) × (session p r ≡ some c)
IsLegal r (receive p bytes) = (c : ℕ) × (session p r ≡ some c) × (length bytes < u32_mod)

abbrev pub after : Sessions → Event → Sessions
after r nothing = r
after r (connect p c) = (p, c) ∷ r
after r (disconnect p) = close p r
after r (receive p bytes) = r

abbrev pub after_all : Sessions → List Event → Sessions
after_all r [] = r
after_all r (e ∷ es) = after_all (after r e) es

abbrev pub AllLegal : Sessions → List Event → Type 0
AllLegal r [] = Unit {0}
AllLegal r (e ∷ es) = IsLegal r e × AllLegal (after r e) es

pub owner-session : (p c : ℕ) (r : Sessions) → IsApart r → session p r ≡ some c → owner c r ≡ some p
unfolding session owner
owner-session p c [] a h = cc
owner-session p c ((q, d) ∷ r) (_, fresh, a) h = ground (arith, owner-session p c r a)

pub owner-close :
    (p c d : ℕ) (r : Sessions)
    → IsApart r
    → session p r ≡ some c
    → owner d (close p r) ≡ (if c == d then none else owner d r)
unfolding session owner close
owner-close p c d [] a h = cc
owner-close p c d ((q, e) ∷ r) (_, fresh, a) h =
    ground (arith, owner-close p c d r a, owner-session p c r a)

pub session-close :
    (p j : ℕ) (r : Sessions)
    → IsApart r
    → session j (close p r) ≡ (if p == j then none else session j r)
unfolding session close
session-close p j [] a = ground arith
session-close p j ((q, e) ∷ r) (fresh, _, a) = ground (arith, session-close p j r a)

pub length-close :
    (p c : ℕ) (r : Sessions) → session p r ≡ some c → suc (length (close p r)) ≡ length r
unfolding session close
length-close p c [] h = cc
length-close p c ((q, e) ∷ r) h = ground (arith, length-close p c r)

session-close-none : (p j : ℕ) (r : Sessions) → session j r ≡ none → session j (close p r) ≡ none
unfolding session close
session-close-none p j [] h = refl
session-close-none p j ((q, e) ∷ r) h = ground (arith, session-close-none p j r)

owner-close-none : (p c : ℕ) (r : Sessions) → owner c r ≡ none → owner c (close p r) ≡ none
unfolding owner close
owner-close-none p c [] h = refl
owner-close-none p c ((q, e) ∷ r) h = ground (arith, owner-close-none p c r)

pub IsApart-close : (p : ℕ) (r : Sessions) → IsApart r → IsApart (close p r)
unfolding close
IsApart-close p [] a = tt
IsApart-close p ((q, e) ∷ r) (f, g, a) =
    ground (arith, IsApart-close p r a, session-close-none p q r, owner-close-none p e r)
