-- ===== src/SingleInstance/Alone.antt =====
-- What a process gets that asks for the lock while no other does.
use discord_copilot_sdk.Base.{
  ℕ, zero, suc, Bool, true, false, ◌&&◌, ◌||◌, not, Option, none, some, ◌==◌, nat_eq, if◌then◌else◌,
  ◌≡◌, refl, arith, beq_refl, ap, ◌∙◌,
}
use discord_copilot_sdk.SingleInstance.{Lock, Stage, creates, removes, holds, refused, next}

-- The process goes on by itself for a number of calls, which all work.
unfoldable pub go_on : ℕ → ℕ → (ℕ → Bool) → Stage × Option Lock → Stage × Option Lock
go_on zero p alive (s, f) = (s, f)
go_on (suc n) p alive (s, f) = go_on n p alive (next p alive true s f)

-- Whether the lock may be taken: there is none, or its holder is dead or of the process's own pid.
abbrev pub can_take : ℕ → (ℕ → Bool) → Option ℕ → Bool
can_take p alive none = false
can_take p alive (some h) = h == p || not (alive h)

abbrev pub is_free : ℕ → (ℕ → Bool) → Option Lock → Bool
is_free p alive none = true
is_free p alive (some l) = can_take p alive l.content

abbrev lock_of : ℕ → Option ℕ → Lock
lock_of p o = record { creator = p; content = o }

go_on-holds :
    (n p : ℕ) (alive : ℕ → Bool) (f : Option Lock) → go_on n p alive (holds, f) ≡ (holds, f)
unfolding go_on next
go_on-holds zero p alive f = refl
go_on-holds (suc n) p alive f = go_on-holds n p alive f

go_on-refused :
    (n p : ℕ) (alive : ℕ → Bool) (f : Option Lock) → go_on n p alive (refused, f) ≡ (refused, f)
unfolding go_on next
go_on-refused zero p alive f = refl
go_on-refused (suc n) p alive f = go_on-refused n p alive f

-- The two calls that make the lock.
go_on-create :
    (n p a : ℕ) (alive : ℕ → Bool)
    → go_on (suc (suc n)) p alive (creates (suc a), none) ≡ (holds, some (lock_of p (some p)))
unfolding go_on next
go_on-create n p a alive = rw (beq_refl p) (go_on-holds n p alive (some (lock_of p (some p))))

-- The calls after the holder is judged.
go_on-judged :
    (p c : ℕ) (alive : ℕ → Bool) (o : Option ℕ) (free : Bool)
    → go_on 4 p alive (if free then removes 1 else refused, some (lock_of c o))
      ≡ (if free then (holds, some (lock_of p (some p))) else (refused, some (lock_of c o)))
unfolding go_on next
go_on-judged p c alive o false = refl
go_on-judged p c alive o true = go_on-create 1 p 0 alive

judged :
    (p h : ℕ) (alive : ℕ → Bool)
    → (if not (h == p) && alive h then refused else removes 1)
      ≡ (if can_take p alive (some h) then removes 1 else refused)
judged p h alive = ground arith

-- The calls on a lock that is there.
go_on-content :
    (p c : ℕ) (alive : ℕ → Bool) (o : Option ℕ)
    → go_on 7 p alive (creates 2, some (lock_of c o)) ≡ (
        if can_take p alive o
        then (holds, some (lock_of p (some p)))
        else (refused, some (lock_of c o)))
unfolding go_on next
go_on-content p c alive none = refl
go_on-content p c alive (some h) =
    ap (λ s. go_on 4 p alive (s, some (lock_of c (some h)))) (judged p h alive)
    ∙ go_on-judged p c alive (some h) (can_take p alive (some h))

-- A process that asks while no other does, whose calls all work, gets within seven steps either the
-- lock, with its pid in the file, or a refusal that leaves the file as it was: the lock exactly
-- when there is no file, or the file holds the process's own pid or that of a process that is not
-- alive. A file that holds no pid is refused.
pub go_on-acquires :
    (p : ℕ) (alive : ℕ → Bool) (f : Option Lock)
    → go_on 7 p alive (creates 2, f) ≡ (
        if is_free p alive f
        then (holds, some (record { creator = p; content = some p }))
        else (refused, f))
go_on-acquires p alive none = go_on-create 5 p 1 alive
go_on-acquires p alive (some l) = go_on-content p l.creator alive l.content
