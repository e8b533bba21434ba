-- ===== src/Game/OutgoingClientSingleton/Closing.antt =====
-- The destructor of the client.
use kge.Prelude.{◌≡◌, refl}
use kge.Network.OutgoingClientBase.{Client, close}
use kge.Game.OutgoingClientSingleton.{ClientMembers, destructor}

-- The second destructor finds no peer and no host: each is reset and destroyed once.
pub destructor-close : (c : Client ClientMembers) → destructor c ≡ close c
unfolding destructor close
destructor-close c = refl
