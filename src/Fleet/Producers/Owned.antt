-- ===== src/Fleet/Producers/Owned.antt =====
-- The services of a supervisor on the fleet's table keep it the owner of a row that it took.
use video_thingy_rocks.Common.{
  ℕ, ◌≡◌, inl, inr, refl, String, Bool, true, false, Option, some, List, arith, All, PortMap,
  if◌then◌else◌,
}
use video_thingy_rocks.Dynamo.{
  DocumentClient, Laws, Untouched, Reply, ok, conditional_check_failed, failed,
}
use video_thingy_rocks.StreamTable.{
  StreamMetadata, existing, acquire_command, lease_command, raise_command,
}
use video_thingy_rocks.StreamMetadata.{
  OwnedWriteResult, acquired, try_acquire_kinesis_lock, update_last_packet_time,
  get_srtp_index_floor, get_srtp_floor_epoch, raise_srtp_index_floor,
}
use video_thingy_rocks.Fleet.{Call}
use video_thingy_rocks.Fleet.Leases.{Respects, run-Holds}
use video_thingy_rocks.Fleet.Producers.{
  Instance, interfered, read_epoch, read_index, raise_index, acquire_lock, release_lock,
  refresh_lock, fleet_services,
}
use video_thingy_rocks.Supervisor.{Services, SrtpPortSupervisorConfig}
use video_thingy_rocks.Supervisor.Owning.{Guards, grants}

-- The row names `id` as its owner, and has a lease.
abbrev pub Owns : String → Option StreamMetadata → Type 0
Owns id o =
    ((existing o).kinesis_owner_instance_id ≡ some id)
    × ((last : ℕ) × ((existing o).last_packet_time ≡ some last))

-- What the other instances and the cleanup do respects every lease that `id` has of the port.
abbrev pub Respectful :
    (db : DocumentClient StreamMetadata) → ℕ → String → (ℕ → db.Table → List Call) → Type 0
Respectful db port id others =
    (n : ℕ) (t : db.Table) (last : ℕ)
    → (existing (db.item t port)).kinesis_owner_instance_id ≡ some id
    → (existing (db.item t port)).last_packet_time ≡ some last
    → All (Respects port id last) (others n t)

module _ (db : DocumentClient StreamMetadata) (laws : Laws db) (local : Services)
    (others : ℕ → db.Table → List Call) (c : SrtpPortSupervisorConfig) where
  abbrev pub Owned : db.Table → Type 0
  Owned t = Owns c.instance_id (db.item t c.port)

  -- If the lock is taken for held, the row is owned.
  pub record Own (b : Bool) (w : Instance db local) : Type 0 where
    pub owns : b ≡ true → Owned w.table

  Untouched-Owned : (t t' : db.Table) → Untouched db t t' c.port → Owned t → Owned t'
  Untouched-Owned t t' same o = rw same o

  pub interfered-Owned :
      Respectful db c.port c.instance_id others
      → (w : Instance db local) → Owned w.table
      → Owned (interfered db local others w).table
  unfolding interfered
  interfered-Owned respectful w (owner, (last, leased)) =
      let (owner', (last', leased', later)) =
        run-Holds c.port c.instance_id last db laws (others w.turn w.table) w.table
          (respectful w.turn w.table last owner leased) (owner, (last, leased, omega arith)) in
      (owner', (last', leased'))

  get-Owned : (k : ℕ) (t : db.Table) → Owned t → Owned (db.send_get k t).1
  get-Owned k t o = Untouched-Owned t (db.send_get k t).1 (laws.get_keeps k c.port t) o

  raise-Owned :
      (i ssrc : ℕ) (f : String) (g : ℕ) (e : Option ℕ) (now : ℕ) (t : db.Table)
      → Owned t
      → Owned (raise_srtp_index_floor db c.port i ssrc f g e now t)
  unfolding raise_srtp_index_floor
  raise-Owned i ssrc f g e now t o =
      elim (laws.update_atomic (raise_command c.port i ssrc f g e now) t) [
        | inl same ↦ Untouched-Owned t _ same o
        | inr (passed, wrote) ↦ rw wrote o
      ]

  refresh-Owned :
      (now : ℕ) (t : db.Table)
      → Owned t
      → Owned (db.send_update (lease_command c.port c.instance_id now) t).1
  refresh-Owned now t o = elim (laws.update_atomic (lease_command c.port c.instance_id now) t) [
    | inl same ↦ Untouched-Owned t _ same o
    | inr (passed, wrote) ↦ rw wrote (o.0, (now, refl))
  ]

  kept_or_acquired :
      (now threshold : ℕ) (t : db.Table)
      → Owned t
      → Owned (db.send_update (acquire_command c.port c.instance_id now threshold) t).1
  kept_or_acquired now threshold t o =
      elim (laws.update_atomic (acquire_command c.port c.instance_id now threshold) t) [
        | inl same ↦ Untouched-Owned t _ same o
        | inr (passed, wrote) ↦ rw wrote (refl, (now, refl))
      ]

  acquire_reply-Owned :
      (now threshold : ℕ) (b : Bool) (t : db.Table) (reply : Reply)
      → let u = acquire_command c.port c.instance_id now threshold in
        (db.send_update u t).0 ≡ reply
        → (b ≡ true → Owned t)
        → grants (acquired reply) b ≡ true
        → Owned (db.send_update u t).1
  acquire_reply-Owned now threshold b t ok e o g =
      let (passed, wrote) =
        laws.update_ok (acquire_command c.port c.instance_id now threshold) t e in
      rw wrote (refl, (now, refl))
  acquire_reply-Owned now threshold b t conditional_check_failed e o g =
      kept_or_acquired now threshold t (o g)
  acquire_reply-Owned now threshold b t failed e o g = kept_or_acquired now threshold t (o g)

  update_last_packet_time-Owned :
      (now : ℕ) (times : PortMap ℕ) (t : db.Table)
      → Owned t
      → Owned (update_last_packet_time db c.port c.instance_id now times t).2
  unfolding update_last_packet_time
  update_last_packet_time-Owned now times t o = either _ _ _ o (refresh-Owned now t o)
    where
      either :
          (b : Bool) (x y : OwnedWriteResult × PortMap ℕ × db.Table)
          → Owned x.2
          → Owned y.2
          → Owned (if b then x else y).2
      either true x y h k = h
      either false x y h k = k

  -- The services keep it: what the supervisor calls between two of its own decisions.
  pub fleet_services_guards :
      Respectful db c.port c.instance_id others → Guards c (fleet_services db local others) Own
  unfolding read_epoch read_index raise_index acquire_lock release_lock refresh_lock
      get_srtp_floor_epoch get_srtp_index_floor try_acquire_kinesis_lock update_last_packet_time
      interfered
  fleet_services_guards respectful = record {
    Book = λ n m. Unit;
    recorded = λ n m e o. tt;
    weaken = λ w h. record { owns = λ e. cc };
    now = λ b w h. record { owns = h.owns };
    epoch = λ b w h. record {
      owns = λ e. get-Owned c.port _ (interfered-Owned respectful w (h.owns e));
    };
    floor = λ b w h. record {
      owns = λ e. get-Owned c.port _ (interfered-Owned respectful w (h.owns e));
    };
    raise = λ b i e w h. record {
      owns = λ q.
          raise-Owned i _ _ _ e _ (interfered db local others w).table
            (interfered-Owned respectful w (h.owns q));
    };
    acquire = λ b w h. record {
      owns =
          acquire_reply-Owned _ _ b (interfered db local others w).table _ refl
            (λ e. interfered-Owned respectful w (h.owns e));
    };
    release = λ w h. record { owns = λ e. cc };
    refresh = λ b w h. record {
      owns = λ e.
          update_last_packet_time-Owned _ w.times (interfered db local others w).table
            (interfered-Owned respectful w (h.owns e));
    };
    spawn = λ b f w h. record { owns = h.owns };
    write = λ b k m w h. record { owns = h.owns };
    end_child = λ b k w h. record { owns = h.owns };
    race = λ b k ms w h. record { owns = h.owns };
    authenticated = λ b port roc trials w h. record { owns = h.owns };
    stats = λ b port bytes n w h. record { owns = h.owns };
    moves = λ b from to w h. record { owns = h.owns };
  }

  -- Of the sessions nothing is asked.
  pub books_kept :
      (respectful : Respectful db c.port c.instance_id others) (n : ℕ) (m : PortMap (Option ℕ))
      → (fleet_services_guards respectful).Book n m
  unfolding fleet_services_guards
  books_kept respectful n m = tt
