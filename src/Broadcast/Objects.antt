-- ===== src/Broadcast/Objects.antt =====
-- 36/producer.c: the semaphores, the queue and the memory, from `initIpc` to the end of `main`.
use os_solutions.Prelude.{
  ◌≡◌, refl, Bool, true, false, if◌then◌else◌, Outcome, ok, ◌>>=◌, Returns, arith, Bool-cases, inl,
  inr,
}

-- what `shmat` gives; the code tests for NULL, and an error is another pointer
pub data Attached : Type 0 where
  null_pointer error_pointer mapped : Attached

-- whether each call succeeds; `producing` is what `produce` gives for the pointer
pub record Calls : Type 0 where
  pub gets_key : Bool
  pub gets_sem : Bool
  pub gets_queue : Bool
  pub gets_mem : Bool
  pub attaches : Attached
  pub producing : Attached → Outcome Bool
  pub detaches : Bool
  pub deletes_mem : Bool
  pub closes_queue : Bool
  pub deletes_sem : Bool

-- what is there: the objects, and whether the memory is attached
pub record Objects : Type 0 where
  pub has_sem : Bool
  pub has_queue : Bool
  pub has_mem : Bool
  pub is_attached : Bool

abbrev pub no_objects : Objects
no_objects = record { has_sem = false; has_queue = false; has_mem = false; is_attached = false }

module _ (k : Calls) where
  unfoldable pub detach_shared_mem : Objects → Bool × Objects
  detach_shared_mem o = if k.detaches then (true, record o { is_attached = false }) else (false, o)

  unfoldable pub del_shared_mem : Objects → Bool × Objects
  del_shared_mem o = if k.deletes_mem then (true, record o { has_mem = false }) else (false, o)

  unfoldable pub close_queue : Objects → Bool × Objects
  close_queue o = if k.closes_queue then (true, record o { has_queue = false }) else (false, o)

  unfoldable pub del_sem : Objects → Bool × Objects
  del_sem o = if k.deletes_sem then (true, record o { has_sem = false }) else (false, o)

  abbrev is_null : Attached → Bool
  is_null null_pointer = true
  is_null error_pointer = false
  is_null mapped = false

  abbrev is_mapped : Attached → Bool
  is_mapped null_pointer = false
  is_mapped error_pointer = false
  is_mapped mapped = true

  unfoldable pub init_ipc : Bool × Objects
  unfolding del_sem close_queue del_shared_mem
  init_ipc =
      if k.gets_key
      then (let o₁ : Objects = record no_objects { has_sem = true } in
          let o₂ : Objects = record o₁ { has_queue = true } in
          let o₃ : Objects = record o₂ { has_mem = true } in
          if k.gets_sem
          then (if k.gets_queue
              then (if k.gets_mem
                  then (if is_null k.attaches
                      then (false, (close_queue (del_shared_mem (del_sem o₃).1).1).1)
                      else (true, record o₃ { is_attached = is_mapped k.attaches }))
                  else (false, (close_queue (del_sem o₂).1).1))
              else (false, (del_sem o₁).1))
          else (false, no_objects))
      else (false, no_objects)

  unfoldable pub destroy_ipc : Objects → Bool × Objects
  unfolding del_sem close_queue del_shared_mem detach_shared_mem
  destroy_ipc o =
      let detached = detach_shared_mem o in
      let deleted = del_shared_mem detached.1 in
      let closed = close_queue deleted.1 in
      if detached.0
      then (if deleted.0
          then (if closed.0 then del_sem closed.1 else (false, (del_sem closed.1).1))
          else (false, (close_queue (del_sem deleted.1).1).1))
      else (false, (close_queue (del_sem deleted.1).1).1)

  -- lines 220 to 223
  unfoldable pub abandon : Objects → Objects
  unfolding del_sem close_queue del_shared_mem detach_shared_mem
  abandon o = (del_shared_mem (detach_shared_mem (close_queue (del_sem o).1).1).1).1

  unfoldable pub main : Outcome (Bool × Objects)
  unfolding init_ipc destroy_ipc abandon
  main =
      let started = init_ipc in
      if started.0
      then (k.producing k.attaches >>= λ produced.
          ok (if produced then destroy_ipc started.1 else (false, abandon started.1)))
      else ok started

-- an object is left only where the call that removes it fails
pub record Released (k : Calls) (o : Objects) : Type 0 where
  pub sem_left : o.has_sem ≡ true → k.deletes_sem ≡ false
  pub queue_left : o.has_queue ≡ true → k.closes_queue ≡ false
  pub mem_left : o.has_mem ≡ true → k.deletes_mem ≡ false
  pub attached_left : o.is_attached ≡ true → k.detaches ≡ false

module _ (k : Calls) where
  destroy_ipc-Released : (o : Objects) → Released k (destroy_ipc k o).1
  unfolding destroy_ipc
  destroy_ipc-Released o = ground arith

  init_ipc-Released : (init_ipc k).0 ≡ false → Released k (init_ipc k).1
  unfolding init_ipc
  init_ipc-Released h = ground arith

  -- after a failed `produce`
  abandon-Released : (o : Objects) → Released k (abandon k o)
  unfolding abandon
  abandon-Released o = ground arith

-- On every path of the producer's `main`, where `produce` returns for the pointer that it gets,
-- what is left of the semaphores, the queue, the shared memory and its attachment is only what
-- could not be removed: its call of removal fails.
pub main-Released :
    (k : Calls) (b : Bool) → k.producing k.attaches ≡ ok b → Returns (main k) λ r. Released k r.1
unfolding main
main-Released k b h = elim (Bool-cases (init_ipc k).0) [
  | inr e ↦ (init_ipc k, rw e refl, init_ipc-Released k e)
  | inl e ↦
      elim b as (λ b. k.producing k.attaches ≡ ok b → Returns (main k) λ r. Released k r.1) [
        | true ↦ λ q.
            (destroy_ipc k (init_ipc k).1, rw (e, q) refl, destroy_ipc-Released k (init_ipc k).1)
        | false ↦ λ q.
            ((false, abandon k (init_ipc k).1), rw (e, q) refl, abandon-Released k (init_ipc k).1)
      ]
        h
]
