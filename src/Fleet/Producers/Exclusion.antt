-- ===== src/Fleet/Producers/Exclusion.antt =====
-- While the others respect its leases, an instance whose helper may be writing owns the row, and no
-- two instances' helpers of one port may be writing.
use video_thingy_rocks.Common.{ℕ, ◌≡◌, ◌≢◌, sym, ap, ◌∙◌, String, true, some, List}
use video_thingy_rocks.Dynamo.{DocumentClient, Laws}
use video_thingy_rocks.StreamTable.{StreamMetadata, existing}
use video_thingy_rocks.Fleet.{Call}
use video_thingy_rocks.Fleet.Producers.{Instance, interfered, fleet_services}
use video_thingy_rocks.Supervisor.Steps
use video_thingy_rocks.Supervisor.{Services, SrtpPortSupervisorConfig, new_supervisor}
use video_thingy_rocks.Supervisor.Steps.{Step}
use video_thingy_rocks.Supervisor.Invariant.{may_write}
use video_thingy_rocks.Supervisor.Invariant.Steps.{run-Sound, new_supervisor-Sound}
use video_thingy_rocks.Supervisor.Owning.Steps.{run-Good}
use video_thingy_rocks.Fleet.Producers.Owned.{
  Owns, Respectful, Own, interfered-Owned, fleet_services_guards, books_kept,
}

module _ (db : DocumentClient StreamMetadata) (laws : Laws db) (local : Services)
    (others : ℕ → db.Table → List Call) (c : SrtpPortSupervisorConfig) where
  -- While the others respect this instance's leases, whatever its helper does and whatever the others
  -- do between its calls: if its supervisor takes the port's lock for held, then the row names it as
  -- the owner, also after what the others did since its last call.
  pub run-Owns :
      (es : List Step) (w : Instance db local)
      → Respectful db c.port c.instance_id others
      → let s = Steps.run c (fleet_services db local others) es (new_supervisor c w) in
        s.lock_held ≡ true
        → Owns c.instance_id (db.item (interfered db local others s.world).table c.port)
  run-Owns es w respectful h =
      let srv = fleet_services db local others in
      let guards = fleet_services_guards db laws local others c respectful in
      let s = Steps.run c srv es (new_supervisor c w) in
      let g = run-Good c srv (Own db laws local others c) guards es (new_supervisor c w) (record {
        own = record { owns = λ e. cc };
        book = books_kept db laws local others c respectful 0 _;
      }) in
      interfered-Owned db laws local others c respectful s.world (g.own.owns h)

-- A helper session that may be writing has its supervisor hold the lock.
writing_held :
    (c : SrtpPortSupervisorConfig) (srv : Services) (es : List Step) (w : srv.World) (k : ℕ)
    → may_write k (Steps.run c srv es (new_supervisor c w)).log ≡ true
    → (Steps.run c srv es (new_supervisor c w)).lock_held ≡ true
writing_held c srv es w k h =
    ((run-Sound c srv es (new_supervisor c w) (new_supervisor-Sound c srv w)).facts.writers k h).0

some_injective : {a b : String} → some a ≡ some b → a ≡ b
some_injective e = cc

-- Two instances never produce to one port's stream at the same time. Each runs its supervisor on the
-- fleet's table with any steps, and what it meets of the other, and of the rest of the fleet, is what
-- the others do between its calls, which respects the leases that it has. Where both see the same
-- row: if a helper session of the one was told to start, and has not reported that it stopped nor
-- ended, then there is no such session of the other.
pub producers_exclude :
    (db : DocumentClient StreamMetadata) (laws : Laws db) (local₁ local₂ : Services)
    (others₁ others₂ : ℕ → db.Table → List Call) (c₁ c₂ : SrtpPortSupervisorConfig)
    (es₁ es₂ : List Step) (w₁ : Instance db local₁) (w₂ : Instance db local₂) (k₁ k₂ : ℕ)
    → Respectful db c₁.port c₁.instance_id others₁
    → Respectful db c₂.port c₂.instance_id others₂
    → c₁.instance_id ≢ c₂.instance_id
    → let s₁ = Steps.run c₁ (fleet_services db local₁ others₁) es₁ (new_supervisor c₁ w₁) in
      let s₂ = Steps.run c₂ (fleet_services db local₂ others₂) es₂ (new_supervisor c₂ w₂) in
      db.item (interfered db local₁ others₁ s₁.world).table c₁.port
        ≡ db.item (interfered db local₂ others₂ s₂.world).table c₂.port
      → may_write k₁ s₁.log ≡ true
      → may_write k₂ s₂.log ≢ true
producers_exclude db laws local₁ local₂ others₁ others₂ c₁ c₂ es₁ es₂ w₁ w₂ k₁ k₂ r₁ r₂ other row h₁
      h₂ =
    let (owner₁, leased₁) =
      run-Owns db laws local₁ others₁ c₁ es₁ w₁ r₁
        (writing_held c₁ (fleet_services db local₁ others₁) es₁ w₁ k₁ h₁) in
    let (owner₂, leased₂) =
      run-Owns db laws local₂ others₂ c₂ es₂ w₂ r₂
        (writing_held c₂ (fleet_services db local₂ others₂) es₂ w₂ k₂ h₂) in
    other
      (some_injective (sym owner₁ ∙ ap (λ o. (existing o).kinesis_owner_instance_id) row ∙ owner₂))
