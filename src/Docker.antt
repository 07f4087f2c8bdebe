-- ===== src/Docker.antt =====
-- internal/services/docker/docker.go: `ContainerManager`, one container for each worker. The Docker
-- client is the parameter `client`, over a state of the engine that only it knows.
use Prim.Native.String.{◌++◌ as join}
use catgirl.Base.{
  ◌≡◌, ◌≢◌, refl, ap, sym, ◌∙◌, Bool, not, List, [], ◌∷◌, ◌++◌, Option, none, some, ◌⊎◌, inl, inr,
  String, str_eq, M, Result, ok, err, ◌>>=◌, ◌>>◌, pure, wrapped, find, keep, if◌then◌else◌,
  Bool-cases, Option-cases, ◌==◌, ==_iff, ==_self,
}
use catgirl.Models.{Uuid, Time}
use catgirl.Repository.Laws.{find-append_missing, find-keep_others, find-keep}

pub record DockerClient (Engine : Type 0) : Type 0 where
  pub pull_image : String → M Engine (Unit {0})
  pub container_create : String → Uuid → M Engine String
  pub container_start : String → M Engine (Unit {0})
  pub container_stop : String → M Engine (Unit {0})

pub record ContainerInfo : Type 0 where
  pub container_id : String
  pub task_id : Uuid
  pub created_at : Time

pub record ManagerState (Engine : Type 0) : Type 0 where
  pub engine : Engine
  pub containers : List ContainerInfo

abbrev pub is_info : Uuid → ContainerInfo → Bool
is_info task_id info = info.task_id == task_id

-- `CreateContainer`: the image that is asked for, or the configured one.
abbrev pub image_of : String → String → String → String
image_of registry default_image image =
    if str_eq image ""
    then (if str_eq registry "" then default_image else join registry (join "/" default_image))
    else image

module _ {Engine : Type 0} (client : DockerClient Engine) (registry default_image : String) where
  unfoldable pub create_container : Uuid → String → M Engine String
  create_container task_id image = do
    wrapped "failed to pull image" (client.pull_image (image_of registry default_image image))
    id ←
        wrapped "failed to create container"
          (client.container_create (image_of registry default_image image) task_id)
    wrapped "failed to start container" (client.container_start id)
    pure id

  abbrev pub keep_info :
      Time
      → Uuid
      → ManagerState Engine
      → Result String × Engine
      → Result ContainerInfo × ManagerState Engine
  keep_info now task_id s (err e, engine) = (err e, record s { engine = engine })
  keep_info now task_id s (ok id, engine) =
      let info : ContainerInfo = record {
        container_id = id;
        task_id = task_id;
        created_at = now;
      } in
      (ok info, record { engine = engine; containers = s.containers ++ info ∷ [] })

  abbrev pub or_create :
      Time → Uuid → String → Option ContainerInfo → M (ManagerState Engine) ContainerInfo
  or_create now task_id image (some info) s = (ok info, s)
  or_create now task_id image none s =
      keep_info now task_id s (create_container task_id image s.engine)

  unfoldable pub get_or_create_container :
      Time → Uuid → String → M (ManagerState Engine) ContainerInfo
  get_or_create_container now task_id image s =
      or_create now task_id image (find (is_info task_id) s.containers) s

  -- The entry goes whether or not the container stops.
  abbrev pub drop_info :
      Uuid → ManagerState Engine → Option ContainerInfo → Result (Unit {0}) × ManagerState Engine
  drop_info task_id s none = (ok tt, s)
  drop_info task_id s (some info) =
      let (_, engine) = client.container_stop info.container_id s.engine in
      (
        ok tt,
        record {
          engine = engine;
          containers = keep (λ other. not (is_info task_id other)) s.containers;
        },
      )

  unfoldable pub release_container : Uuid → M (ManagerState Engine) (Unit {0})
  release_container task_id s = drop_info task_id s (find (is_info task_id) s.containers)

  kept :
      (now : Time) (task_id : Uuid) (s s' : ManagerState Engine) (info : ContainerInfo)
      (r : Result String × Engine)
      → find (is_info task_id) s.containers ≡ none
      → keep_info now task_id s r ≡ (ok info, s')
      → find (is_info task_id) s'.containers ≡ some info
  kept now task_id s s' info (err e, engine) missing h = cc
  kept now task_id s s' info (ok id, engine) missing h =
      let made : ContainerInfo = record {
        container_id = id;
        task_id = task_id;
        created_at = now;
      } in
      let same : made ≡ info = ok-injective (ap (λ p. p.0) h) in
      ap (λ p. find (is_info task_id) p.1.containers) (sym h)
      ∙ find-append_missing (is_info task_id) s.containers made missing (==_self task_id)
      ∙ ap some same
    where
      ok-injective : {a b : ContainerInfo} → ok a ≡ ok b → a ≡ b
      ok-injective e = cc

  -- Once a worker has a container, asking again gives the same one, whatever the image, and leaves
  -- Docker and the manager alone.
  pub get_or_create_container-again :
      (now later : Time) (task_id : Uuid) (image image' : String) (s s' : ManagerState Engine)
      (info : ContainerInfo)
      → get_or_create_container now task_id image s ≡ (ok info, s')
      → get_or_create_container later task_id image' s' ≡ (ok info, s')
  unfolding get_or_create_container
  get_or_create_container-again now later task_id image image' s s' info h =
      elim (Option-cases (find (is_info task_id) s.containers)) [
        | inl missing ↦
            rw
              (kept now task_id s s' info (create_container task_id image s.engine) missing
                (rw missing at h))
              refl
        | inr (old, found) ↦
            let e : (ok old, s) ≡ (ok info, s') = rw found at h in
            let again : find (is_info task_id) s'.containers ≡ some info =
              ap (λ p. find (is_info task_id) p.1.containers) (sym e)
              ∙ found
              ∙ ap some (ok-injective (ap (λ p. p.0) e)) in
            rw again refl
      ]
    where
      ok-injective : {a b : ContainerInfo} → ok a ≡ ok b → a ≡ b
      ok-injective e = cc

  -- Releasing a worker's container never fails, the worker has none afterwards, and every other id is
  -- that of the worker or finds the container that it found before.
  pub release_container-forgets :
      (task_id : Uuid) (s : ManagerState Engine)
      → let (r, s') = release_container task_id s in
        (r ≡ ok tt)
        × (find (is_info task_id) s'.containers ≡ none)
        × ((other : Uuid)
            → (other ≡ task_id)
              ⊎ (find (is_info other) s'.containers ≡ find (is_info other) s.containers))
  unfolding release_container
  release_container-forgets task_id s = elim (Option-cases (find (is_info task_id) s.containers)) [
    | inl missing ↦ rw missing (refl, missing, λ other. inr refl)
    | inr (info, found) ↦ rw found (refl, find-keep_others (is_info task_id) s.containers, others)
  ]
    where
      stays :
          (other : Uuid)
          → other ≢ task_id
          → find (is_info other) (keep (λ i. not (is_info task_id i)) s.containers)
            ≡ find (is_info other) s.containers
      stays other apart =
          find-keep (is_info other) (λ i. not (is_info task_id i)) s.containers
            λ i e. elim (Bool-cases (is_info task_id i)) [
              | inl k ↦
                  absurd
                    (apart (sym ((==_iff i.task_id other).0 e) ∙ (==_iff i.task_id task_id).0 k))
              | inr k ↦ rw k refl
            ]

      others :
          (other : Uuid)
          → (other ≡ task_id)
            ⊎ (find (is_info other) (keep (λ i. not (is_info task_id i)) s.containers)
                ≡ find (is_info other) s.containers)
      others other = elim (Bool-cases (other == task_id)) [
        | inl e ↦ inl ((==_iff other task_id).0 e)
        | inr e ↦ inr (stays other λ same. cc (e, (==_iff other task_id).1 same))
      ]
