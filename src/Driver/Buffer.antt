-- ===== src/Driver/Buffer.antt =====
-- Store and forward: what is published after an outage, and in which order.
use diep_lab.Base.{
  ℕ, suc, ◌-◌, ◌≤◌, ◌<◌, ◌≡◌, refl, sym, ap, ◌∙◌, String, true, false, List, [], ◌∷◌, ◌++◌, length,
  length-append, drop, ℕ_discrete, arith, ap₂,
}
use mathlib.Core.List.{append_assoc, append-nil}
use diep_lab.Driver.{Runner, pop_left, push, replay, publish_telemetry}

-- The last `n` entries, or all where there are fewer.
abbrev pub last : ℕ → List String → List String
last n xs = drop (length xs - n) xs

-- The runner after a run of readings without connection.
unfoldable pub go_offline : List String → Runner → Runner
go_offline [] r = r
go_offline (m ∷ ms) r = go_offline ms (publish_telemetry false m r)

replay-append : (xs published : List String) → replay xs published ≡ published ++ xs
unfolding replay
replay-append [] published = sym (append-nil published)
replay-append (x ∷ xs) published =
    replay-append xs (published ++ x ∷ []) ∙ append_assoc published (x ∷ []) xs

push_free : (n : ℕ) (m : String) (b : List String) → suc (length b) ≤ n → push n m b ≡ b ++ m ∷ []
unfolding push
push_free n m b h = ground (arith, length-append b (m ∷ []))

push_full :
    (n : ℕ) (m : String) (b : List String) → length b ≡ n → push n m b ≡ pop_left (b ++ m ∷ [])
unfolding push
push_full n m b h = ground (arith, length-append b (m ∷ []))

-- Dropping the first of more than `n` entries does not change the last `n`.
last-pop_left : (n : ℕ) (xs : List String) → n < length xs → last n (pop_left xs) ≡ last n xs
last-pop_left n [] h = refl
last-pop_left n (x ∷ xs) h =
    let one_more : suc (length xs) - n ≡ suc (length xs - n) = omega arith in rw one_more refl

pop_left-append :
    (b : List String) (m : String) (ms : List String)
    → pop_left (b ++ m ∷ []) ++ ms ≡ pop_left (b ++ m ∷ ms)
pop_left-append [] m ms = refl
pop_left-append (x ∷ b) m ms = append_assoc b (m ∷ []) ms

last-push :
    (n : ℕ) (m : String) (b ms : List String)
    → length b ≤ n
    → last n (push n m b ++ ms) ≡ last n (b ++ m ∷ ms)
last-push n m b ms h = elim (ℕ_discrete (length b) n) [
  | yes full ↦
      ap (λ l. last n (l ++ ms)) (push_full n m b full)
      ∙ ap (last n) (pop_left-append b m ms)
      ∙ last-pop_left n (b ++ m ∷ ms) (omega (arith, length-append b (m ∷ ms)))
  | no free ↦
      ap (λ l. last n (l ++ ms)) (push_free n m b (omega arith))
      ∙ ap (last n) (append_assoc b (m ∷ []) ms)
]

length-push : (n : ℕ) (m : String) (b : List String) → length b ≤ n → length (push n m b) ≤ n
unfolding push
length-push n m [] h = ground arith
length-push n m (x ∷ b) h = ground (arith, length-append b (m ∷ []))

last_short : (n : ℕ) (xs : List String) → length xs ≤ n → last n xs ≡ xs
last_short n xs h = let none_over : length xs - n ≡ 0 = omega arith in rw none_over refl

buffer-go_offline :
    (ms : List String) (r : Runner)
    → length r.buffer ≤ r.buffer_size
    → (go_offline ms r).buffer ≡ last r.buffer_size (r.buffer ++ ms)
unfolding go_offline publish_telemetry
buffer-go_offline [] r h =
    sym (ap (last r.buffer_size) (append-nil r.buffer) ∙ last_short r.buffer_size r.buffer h)
buffer-go_offline (m ∷ ms) r h =
    buffer-go_offline ms (publish_telemetry false m r) (length-push r.buffer_size m r.buffer h)
    ∙ last-push r.buffer_size m r.buffer ms h

published-go_offline : (ms : List String) (r : Runner) → (go_offline ms r).published ≡ r.published
unfolding go_offline publish_telemetry
published-go_offline [] r = refl
published-go_offline (m ∷ ms) r = published-go_offline ms (publish_telemetry false m r)

publish_online :
    (m : String) (r : Runner)
    → publish_telemetry true m r
      ≡ record r { buffer = []; published = r.published ++ (r.buffer ++ m ∷ []) }
unfolding publish_telemetry
publish_online m r =
    ap (λ l. record r { buffer = []; published = l })
      (ap (λ l. l ++ m ∷ []) (replay-append r.buffer r.published)
        ∙ append_assoc r.published r.buffer (m ∷ []))

-- After any run of readings without connection, the first reading with connection publishes the last
-- `buffer_size` of the readings that were held or came since, oldest first, then itself, behind all
-- that was published before, and empties the buffer.
pub publish_telemetry-reconnect :
    (ms : List String) (m : String) (r : Runner)
    → length r.buffer ≤ r.buffer_size
    → let r' = publish_telemetry true m (go_offline ms r) in
      (r'.published ≡ r.published ++ (last r.buffer_size (r.buffer ++ ms) ++ m ∷ []))
      × (r'.buffer ≡ [])
publish_telemetry-reconnect ms m r h =
    let online = publish_online m (go_offline ms r) in
    (
      ap (λ (x : Runner). x.published) online
          ∙ ap₂ (λ p b. p ++ (b ++ m ∷ [])) (published-go_offline ms r) (buffer-go_offline ms r h),
      ap (λ (x : Runner). x.buffer) online,
    )
