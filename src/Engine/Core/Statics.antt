-- ===== src/Engine/Core/Statics.antt =====
-- The instances that the core makes and destroys, by whether they are there and how many were made and deleted. What is in
-- them is in the core.
pub mod Counting
use kge.Prelude.{ℕ, ◌+◌, ◌≡◌, Bool, true, false, Option, none, some, List, [], ◌∷◌}

pub record Tally : Type 0 where
  pub there : Bool
  pub made : ℕ
  pub deleted : ℕ

-- `getPointer` and `destroy` of an instance.
unfoldable pub got : Tally → Tally
got t = elim t.there [
  | true ↦ t
  | false ↦ record { there = true; made = t.made + 1; deleted = t.deleted }
]

unfoldable pub destroyed : Tally → Tally
destroyed t = elim t.there [
  | true ↦ record { there = false; made = t.made; deleted = t.deleted + 1 }
  | false ↦ t
]

-- OutgoingClientSingleton, ServerSingleton, MapDivision, InputListenerSingleton and SchedulerSingleton.
pub record Statics : Type 0 where
  pub client : Tally
  pub server : Tally
  pub division : Tally
  pub listener : Tally
  pub scheduler : Tally

abbrev pub no_tally : Tally
no_tally = record { there = false; made = 0; deleted = 0 }

abbrev pub no_statics : Statics
no_statics = record {
  client = no_tally;
  server = no_tally;
  division = no_tally;
  listener = no_tally;
  scheduler = no_tally;
}

abbrev pub when : Bool → (Tally → Tally) → Tally → Tally
when true f t = f t
when false f t = t

abbrev pub is_there {ℓ} : {A : Type ℓ} → Option A → Bool
is_there none = false
is_there (some a) = true

-- What the start of the core makes where it has a client or a server then; the server makes the map division.
unfoldable pub connected : Bool → Bool → Statics → Statics
connected client server s = record s {
  client = when client got s.client;
  server = when server got s.server;
  division = when server got s.division;
}

-- The input listener, and the scheduler of a frame.
unfoldable pub listening : Statics → Statics
listening s = record s { listener = got s.listener }

unfoldable pub framed : Bool → Statics → Statics
framed frame s = record s { scheduler = when frame got s.scheduler }

-- What `~CoreSingleton` destroys, for a core with a client or a server.
unfoldable pub torn_down : Bool → Bool → Statics → Statics
torn_down client server s = record {
  client = when client destroyed s.client;
  server = when server destroyed s.server;
  division = when server destroyed s.division;
  listener = destroyed s.listener;
  scheduler = destroyed s.scheduler;
}

-- No instance is there, and as many were deleted as were made.
abbrev pub IsFreed : Tally → Type 0
IsFreed t = (t.there ≡ false) × (t.made ≡ t.deleted)

pub record AllFreed (s : Statics) : Type 0 where
  pub client : IsFreed s.client
  pub server : IsFreed s.server
  pub division : IsFreed s.division
  pub listener : IsFreed s.listener
  pub scheduler : IsFreed s.scheduler
