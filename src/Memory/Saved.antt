-- ===== src/Memory/Saved.antt =====
-- What is saved is found again, until it is resolved or its time to live has passed.
use fastapi_alertengine.Prelude.{
  ℕ, ◌+◌, ◌≤◌, ◌<◌, ◌≡◌, refl, sym, ◌∙◌, String, true, false, Option, none, some, List, [], arith,
  Option-cases, inl, inr,
}
use fastapi_alertengine.Redis.{Redis, text, plain}
use fastapi_alertengine.Redis.Client.{got, World, pure, send, catch, ◌>>◌}
use fastapi_alertengine.Redis.Keeps.{CommandKeeps, Keeps, keeps_rules}
use fastapi_alertengine.Redis.Replies.{then_got, catch-true}
use fastapi_alertengine.Memory.{
  incident_ttl, Document, Json, RoundTrips, incident_key, active_key, truthy, id_of, write,
  write_active, save_with, save_incident, resolve_incident, delete_key, read, parse, get_incident,
  load_active, get_active_incident, with_entry, append_to, append_audit, is_empty,
}
use fastapi_alertengine.Memory.Keys.{incident_key-ne-active_key}

module _ (R : Redis) (J : Json) where
  open R use {Server, peek, setex, setex_live, setex_frame, del_gone, del_frame}
  open J use {dumps}

  -- the server holds the document under its key
  abbrev pub Stores : String → Document → ℕ → ℕ → Server → Type 0
  Stores i d from upto s =
      (t : ℕ) → from ≤ t → t < upto → peek s t (incident_key i) ≡ some (plain (text (dumps d)))

  -- the server names the active incident of a tenant
  abbrev pub Names : String → String → ℕ → ℕ → Server → Type 0
  Names tenant i from upto s =
      (t : ℕ) → from ≤ t → t < upto → peek s t (active_key tenant) ≡ some (plain (text i))

  write_active-Stores :
      (d : Document) (i : String) (now : ℕ) (tenant : Option String)
      → Keeps (Stores i d now (now + incident_ttl)) (write_active R J tenant i now)
  unfolding write_active write
  write_active-Stores d i now none = search keeps_rules
  write_active-Stores d i now (some tenant) = search (keeps_rules, framed)
    where
      framed :
          CommandKeeps (Stores i d now (now + incident_ttl)) (write R J now (active_key tenant) i)
      framed s h t a b =
          setex_frame now (active_key tenant) incident_ttl (text i) s t (incident_key i)
            (λ e. incident_key-ne-active_key i tenant (sym e))
          ∙ h t a b

  write_active-Names :
      (i tenant : String) (now : ℕ) (w : World Server)
      → (write_active R J (some tenant) i now w).0 ≡ got true
      → Names tenant i now (now + incident_ttl) (write_active R J (some tenant) i now w).1.server
  unfolding write_active write
  write_active-Names i tenant now w h t a b =
      let (w', after, g, e) = then_got (write R J now (active_key tenant) i) (pure true) w h in
      rw (e, after) (setex_live now (active_key tenant) incident_ttl (text i) w.server t a b)

  active-Names :
      (i : String) (tenant : Option String) (u : String) (now : ℕ) (w : World Server)
      → tenant ≡ some u
      → (write_active R J tenant i now w).0 ≡ got true
      → Names u i now (now + incident_ttl) (write_active R J tenant i now w).1.server
  active-Names i tenant u now w q = rw q (λ g. write_active-Names i u now w g)

  save_with_lem :
      (d : Document) (tenant : Option String) (i : String) (now : ℕ) (w : World Server)
      → (save_with R J d tenant now (some i) w).0 ≡ got true
      → Stores i d now (now + incident_ttl) (save_with R J d tenant now (some i) w).1.server
        × ((u : String)
            → truthy tenant ≡ some u
            → Names u i now (now + incident_ttl) (save_with R J d tenant now (some i) w).1.server)
  unfolding save_with write
  save_with_lem d tenant i now w h =
      let first = write R J now (incident_key i) (dumps d) in
      let second = write_active R J (truthy tenant) i now in
      let (unguarded, same) = catch-true (send first >> second) w h in
      let (w', after, g, e) = then_got first second w unguarded in
      let stored : Stores i d now (now + incident_ttl) w'.server = λ t a b.
        rw after (setex_live now (incident_key i) incident_ttl (text (dumps d)) w.server t a b) in
      let whole : save_with R J d tenant now (some i) w ≡ second w' = same ∙ e in
      rw whole (
        (write_active-Stores d i now (truthy tenant)).at w' stored,
        λ u q. active-Names i (truthy tenant) u now w' q g,
      )

  id_of_save :
      (d : Document) (tenant : Option String) (now : ℕ) (o : Option String) (w : World Server)
      → (save_with R J d tenant now o w).0 ≡ got true
      → (i : String) × (o ≡ some i)
  unfolding save_with
  id_of_save d tenant now none w h = cc
  id_of_save d tenant now (some i) w h = (i, refl)

  get_incident_found :
      (i : String) (d : Document) (t : ℕ) (s : Server)
      → RoundTrips J d
      → peek s t (incident_key i) ≡ some (plain (text (dumps d)))
      → (get_incident R J i t (record { server = s; faults = [] })).0 ≡ got (some d)
  unfolding get_incident read parse send catch
  get_incident_found i d t s (loaded, filled) h = ground (arith, h, loaded, filled)

  truthy_twice : (o : Option String) (i : String) → truthy o ≡ some i → truthy (some i) ≡ some i
  truthy_twice none i h = cc
  truthy_twice (some s) i h = ground (arith, h)

  truthy_id : (d : Document) (i : String) → id_of d ≡ some i → truthy (some i) ≡ some i
  truthy_id d i h = elim (Option-cases (truthy d.incident_id)) [
    | inl e ↦ truthy_twice d.id i (rw e at h)
    | inr (j, e) ↦ truthy_twice d.incident_id i (e ∙ rw e at h)
  ]

  get_active_incident_found :
      (u i : String) (d : Document) (t : ℕ) (s : Server)
      → RoundTrips J d
      → truthy (some i) ≡ some i
      → peek s t (active_key u) ≡ some (plain (text i))
      → peek s t (incident_key i) ≡ some (plain (text (dumps d)))
      → (get_active_incident R J u t (record { server = s; faults = [] })).0 ≡ got (some d)
  unfolding get_active_incident load_active read send catch
  get_active_incident_found u i d t s c k n h = ground (arith, k, n, get_incident_found i d t s c h)

  -- What `save_incident` has saved is found: if it returns True, for an incident that JSON gives back as
  -- it was and a tenant whose name is not empty, the incident has an id, and until the time to live has
  -- passed `get_incident` returns the incident under the id, and `get_active_incident` returns it for
  -- the tenant, while Redis answers.
  pub save_incident_found :
      (d : Document) (tenant : String) (now : ℕ) (w : World Server)
      → RoundTrips J d
      → truthy (some tenant) ≡ some tenant
      → (save_incident R J d (some tenant) now w).0 ≡ got true
      → (t : ℕ) → now ≤ t
      → t < now + incident_ttl
      → let found : World Server = record {
        server = (save_incident R J d (some tenant) now w).1.server;
        faults = [];
      } in
        ((i : String) × (id_of d ≡ some i) × ((get_incident R J i t found).0 ≡ got (some d)))
        × ((get_active_incident R J tenant t found).0 ≡ got (some d))
  unfolding save_incident
  save_incident_found d tenant now w c u h t a b =
      let (i, q) = id_of_save d (some tenant) now (id_of d) w h in
      let h' : (save_with R J d (some tenant) now (some i) w).0 ≡ got true = rw q at h in
      let (stored, named) = save_with_lem d (some tenant) i now w h' in
      let there = stored t a b in
      (
        (i, q, rw q (get_incident_found i d t _ c there)),
        rw q (
            get_active_incident_found tenant i d t _ c (truthy_id d i q) (named tenant u t a b)
              there),
      )

  -- What `resolve_incident` does: if it returns True, the tenant has no active incident from then on,
  -- and an incident that was stored is stored as long as it was.
  pub resolve_incident_clears :
      (i tenant : String) (now : ℕ) (w : World Server)
      → (resolve_incident R J i tenant now w).0 ≡ got true
      → (j : String) (d : Document) (upto : ℕ) → Stores j d now upto w.server
      → (t : ℕ)
      → let s : Server = (resolve_incident R J i tenant now w).1.server in
        ((get_active_incident R J tenant t (record { server = s; faults = [] })).0 ≡ got none)
        × Stores j d now upto s
  unfolding resolve_incident delete_key get_active_incident load_active read send catch
  resolve_incident_clears i tenant now w h j d upto stored t =
      let command = delete_key R J now (active_key tenant) in
      let (unguarded, same) = catch-true (send command >> pure true) w h in
      let (w', after, g, e) = then_got command (pure true) w unguarded in
      let whole : resolve_incident R J i tenant now w ≡ (got true, w') = same ∙ e in
      rw (whole, after)
        (
          ground (arith, del_gone now (active_key tenant) w.server t),
          λ t' a b.
              del_frame now (active_key tenant) w.server t' (incident_key j)
                (λ q. incident_key-ne-active_key j tenant (sym q))
              ∙ stored t' a b,
        )

  is_empty-false : (d : Document) (i : String) → id_of d ≡ some i → is_empty d ≡ false
  is_empty-false d i h = ground (arith, h)

  -- `append_audit` on a stored incident that JSON gives back as it was: if Redis answers, it
  -- returns True, and the incident is stored anew with the entry, stamped with the time, at the end of
  -- its history.
  pub append_audit_appends :
      (i : String) (d : Document) (entry : List (String × String)) (now : ℕ) (s : Server)
      → RoundTrips J d
      → peek s now (incident_key i) ≡ some (plain (text (dumps d)))
      → id_of d ≡ some i
      → let r = append_audit R J i entry now (record { server = s; faults = [] }) in
        (r.0 ≡ got true) × Stores i (with_entry d entry now) now (now + incident_ttl) r.1.server
  unfolding append_audit append_to save_incident save_with write_active write get_incident read
      parse send catch
  append_audit_appends i d entry now s (loaded, filled) there q =
      let whole : append_audit R J i entry now (record { server = s; faults = [] }) ≡ (
        got true,
        record {
          server =
              setex now (incident_key i) incident_ttl (text (dumps (with_entry d entry now))) s;
          faults = [];
        },
      ) =
        ground (arith, there, q, is_empty-false d i q, loaded, filled) in
      rw whole (
        refl,
        λ t a b.
            setex_live now (incident_key i) incident_ttl (text (dumps (with_entry d entry now))) s t
              a b,
      )
