-- ===== src/User/Memory/Users.antt =====
-- The users of the store (internal/user/repository/user_repository_memory.go).
use beer_avaliation_api.Base.{
  ◌+◌, ◌≡◌, ◌≢◌, inl, inr, String, true, some, [], ◌∷◌, ◌++◌, arith, length, eq_iff, Option-cases,
}
use beer_avaliation_api.Results.{ok}
use beer_avaliation_api.User.Model.{User}
use beer_avaliation_api.User.Memory.{
  MemoryStore, find, replace_first, has_id, has_external, with_contact, get_by_id,
  upsert_by_external, update, remove,
}
use beer_avaliation_api.User.Memory.Search.{
  find-fits, find-append, length-replace_first, find-replace_first, find-replace_first_other,
  length-remove_first, find-remove_first_other,
}

-- Signing in twice with one external identity makes one account: the second sign-in adds no user,
-- keeps the account's identifier and role, and takes over its new address and name.
pub upsert_by_external_twice :
    (first second : User) (r : MemoryStore)
    → first.provider ≡ second.provider
    → first.external_sub ≡ second.external_sub
    → (account : User) × (r₁ : MemoryStore) × (upsert_by_external first r ≡ (ok account, r₁))
      × ((upsert_by_external second r₁).0
          ≡ ok (record account { username = second.username; email = second.email }))
      × (length (upsert_by_external second r₁).1.users ≡ length r₁.users)
unfolding upsert_by_external
upsert_by_external_twice first second r p q =
    let fits = has_external first.provider first.external_sub in
    let own : fits first ≡ true =
      ground (
        arith,
        eq_iff first.provider first.provider,
        eq_iff first.external_sub first.external_sub,
      ) in
    let changed = λ (u : User) (e : find fits r.users ≡ some u).
      find-replace_first fits (with_contact first) r.users u e (find-fits fits r.users u e) in
    elim (Option-cases (find fits r.users)) [
      | inl e ↦ (
        first,
        record r { users = r.users ++ first ∷ [] },
        ground (arith, e),
        rw (← p, ← q) (ground (arith, find-append fits r.users first e, own)),
        rw (← p, ← q)
            (ground (
              arith,
              find-append fits r.users first e,
              own,
              length-replace_first fits (with_contact second) (r.users ++ first ∷ []),
            )),
      )
      | inr (u, e) ↦ (
        with_contact first u,
        record r { users = replace_first fits (with_contact first) r.users },
        ground (arith, e),
        rw (← p, ← q) (ground (arith, changed u e)),
        rw (← p, ← q)
            (ground (
              arith,
              changed u e,
              length-replace_first fits (with_contact second)
                  (replace_first fits (with_contact first) r.users),
            )),
      )
    ]

-- An update of a user that is there changes the name and the address of that user alone: the role,
-- the password and the identifier stay, and so does every user that has another identifier.
pub update-get_by_id :
    (id other : String) (user u : User) (r : MemoryStore)
    → (get_by_id id r).0 ≡ ok u
    → other ≢ id
    → ((update id user r).0 ≡ ok tt)
      × ((get_by_id id (update id user r).1).0
          ≡ ok (record u { username = user.username; email = user.email }))
      × ((get_by_id other (update id user r).1).0 ≡ (get_by_id other r).0)
unfolding get_by_id update
update-get_by_id id other user u r h n =
    let found : find (has_id id) r.users ≡ some u = ground arith in
    let fits = find-fits (has_id id) r.users u found in
    let changed = find-replace_first (has_id id) (with_contact user) r.users u found fits in
    let kept =
      find-replace_first_other (has_id id) (has_id other) (with_contact user) r.users (λ a e. (
        ground (arith, eq_iff a.id id, eq_iff a.id other, n),
        ground (arith, eq_iff a.id id, eq_iff a.id other, n),
      )) in
    (ground (arith, found), ground (arith, found, changed), ground (arith, found, kept))

-- A removal of a user that is there takes one user away, and no user with another identifier.
pub remove-get_by_id :
    (id other : String) (u : User) (r : MemoryStore)
    → other ≢ id
    → (get_by_id id r).0 ≡ ok u
    → ((remove id r).0 ≡ ok tt)
      × (length (remove id r).1.users + 1 ≡ length r.users)
      × ((get_by_id other (remove id r).1).0 ≡ (get_by_id other r).0)
unfolding get_by_id remove
remove-get_by_id id other u r n h =
    let found : find (has_id id) r.users ≡ some u = ground arith in
    let shorter = length-remove_first (has_id id) r.users u found in
    let kept =
      find-remove_first_other (has_id id) (has_id other) r.users
        (λ a e. ground (arith, eq_iff a.id id, eq_iff a.id other, n)) in
    (ground (arith, found), ground (arith, found, shorter), ground (arith, found, kept))
