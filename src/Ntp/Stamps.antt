-- ===== src/Ntp/Stamps.antt =====
-- The numbers that the two queries read from an answer.
use netmon_plugins.Ntp.{
  Answers, Doubles, Timeval, QueryResult, Protocol, read_uint32, ntp_timestamp_to_unix, offset_of,
  timeval_to_seconds, measured, dialogue, create_udp_socket, query, ntp,
}
use netmon_plugins.Prelude.{
  ℕ, zero, suc, ◌+◌, ◌*◌, ◌/◌, ◌%◌, ◌^◌, ◌≡◌, refl, true, false, [], ◌∷◌, ◌++◌, none, some, get_or,
  take, length, ltb, pos, arith, ap, ◌∙◌, subst, append_assoc, length-append,
}
use netmon_plugins.Prelude.Text.{Bytes}

-- A number of 32 bits in network byte order.
abbrev pub uint32 : ℕ → Bytes
uint32 n = n / 2 ^ 24 ∷ n / 2 ^ 16 % 256 ∷ n / 2 ^ 8 % 256 ∷ n % 256 ∷ []

get_or-behind : (a b : Bytes) (i k : ℕ) → i ≡ length a + k → get_or (a ++ b) i 0 ≡ get_or b k 0
get_or-behind [] b i k e = ap (λ j. get_or b j 0) (omega (arith, e))
get_or-behind (x ∷ a) b zero k e = absurd (omega arith)
get_or-behind (x ∷ a) b (suc i) k e = get_or-behind a b i k (omega arith)

bytes-uint32 :
    (n : ℕ)
    → n / 2 ^ 24 * 2 ^ 24 + n / 2 ^ 16 % 256 * 2 ^ 16 + n / 2 ^ 8 % 256 * 2 ^ 8 + n % 256 ≡ n
bytes-uint32 n = omega arith

read_uint32-uint32 :
    (a b : Bytes) (n i : ℕ) → length a ≡ i → read_uint32 (a ++ (uint32 n ++ b)) i ≡ n
unfolding read_uint32
read_uint32-uint32 a b n i e =
    rw
      (
        get_or-behind a (uint32 n ++ b) i 0 (omega arith),
        get_or-behind a (uint32 n ++ b) (i + 1) 1 (omega arith),
        get_or-behind a (uint32 n ++ b) (i + 2) 2 (omega arith),
        get_or-behind a (uint32 n ++ b) (i + 3) 3 (omega arith),
      )
      (bytes-uint32 n)

take-length : (xs : Bytes) (n : ℕ) → length xs ≡ n → take n xs ≡ xs
take-length [] zero e = refl
take-length [] (suc n) e = refl
take-length (x ∷ xs) zero e = absurd (omega arith)
take-length (x ∷ xs) (suc n) e = ap (λ l. x ∷ l) (take-length xs n (omega arith))

-- An answer of 48 bytes: one byte, the stratum, 38 bytes, and the transmit time stamp.
abbrev pub packet : ℕ → ℕ → Bytes → ℕ → ℕ → Bytes
packet first level middle sec frac = first ∷ level ∷ (middle ++ (uint32 sec ++ (uint32 frac ++ [])))

packet-length :
    (first level : ℕ) (middle : Bytes) (sec frac : ℕ)
    → length middle ≡ 38
    → length (packet first level middle sec frac) ≡ 48
packet-length first level middle sec frac e =
    omega (arith, length-append {0} middle (uint32 sec ++ (uint32 frac ++ [])))

packet-frac :
    (first level : ℕ) (middle : Bytes) (sec frac : ℕ)
    → length middle ≡ 38
    → read_uint32 (packet first level middle sec frac) 44 ≡ frac
packet-frac first level middle sec frac e =
    subst (λ l. read_uint32 l 44 ≡ frac)
      (ap (λ l. first ∷ level ∷ l) (append_assoc middle (uint32 sec) (uint32 frac ++ [])))
      (read_uint32-uint32 (first ∷ level ∷ (middle ++ uint32 sec)) [] frac 44
        (omega (arith, length-append {0} middle (uint32 sec))))

module _ {D : Type 0} (d : Doubles D) where
  -- A local time in seconds.
  abbrev pub seconds : Timeval → D
  seconds tv = d.add (d.of_int tv.sec) (d.divide (d.of_int tv.usec) (d.of_int (pos 1000000)))

  -- An NTP time stamp, whose seconds are counted from 1900, in seconds from 1970: 70 years with 17 leap days later.
  abbrev pub since_1970 : ℕ → ℕ → D
  since_1970 sec frac =
      d.add (d.subtract (d.of_int (pos sec)) (d.of_int (pos ((70 * 365 + 17) * 86400))))
        (d.divide (d.of_int (pos frac)) (d.of_int (pos (2 ^ 32))))

  -- How far the middle of two local times is ahead of a server's time.
  abbrev pub ahead : Timeval → Timeval → D → D
  ahead sent_at received_at server_time =
      d.subtract (d.divide (d.add (seconds sent_at) (seconds received_at)) (d.of_int (pos 2)))
        server_time

-- A datagram of the right size is read as a whole.
measured-whole :
    {D : Type 0} (d : Doubles D) (p : Protocol) (sent_at received_at : Timeval) (datagram : Bytes)
    → take p.size datagram ≡ datagram
    → ltb (length datagram) p.size ≡ false
    → measured d p (some datagram) sent_at received_at ≡ record {
      ok = true;
      offset_seconds =
          offset_of d sent_at received_at
            (ntp_timestamp_to_unix d (p.read datagram).1.0 (p.read datagram).1.1);
      stratum = (p.read datagram).0;
      error = [];
    }
unfolding measured
measured-whole d p sent_at received_at datagram whole long = rw (whole, long) refl

module _ {D : Type 0} (d : Doubles D) (sent_at received_at : Timeval) (first level : ℕ)
    (middle : Bytes) (sec frac : ℕ) (long : length middle ≡ 38) where
  answer : ℕ → ℕ → QueryResult D
  answer seconds fraction = record {
    ok = true;
    offset_seconds = offset_of d sent_at received_at (ntp_timestamp_to_unix d seconds fraction);
    stratum = level;
    error = [];
  }

  measured-packet :
      measured d ntp (some (packet first level middle sec frac)) sent_at received_at
      ≡ answer sec frac
  unfolding answer
  measured-packet =
      measured-whole d ntp sent_at received_at (packet first level middle sec frac)
        (take-length _ 48 (packet-length first level middle sec frac long))
        (rw (packet-length first level middle sec frac long) refl)
      ∙ ap (λ n. answer n (read_uint32 (packet first level middle sec frac) 44))
          (read_uint32-uint32 (first ∷ level ∷ middle) (uint32 frac ++ []) sec 40
            (omega (arith, long)))
      ∙ ap (λ n. answer sec n) (packet-frac first level middle sec frac long)

  -- Where every call succeeds and the datagram is a packet of 48 bytes, the query reports the stratum of its
  -- second byte, and by how much the midpoint of the two local times is ahead of its transmit time stamp, the two
  -- numbers of 32 bits in its last eight bytes, as seconds from 1900 and a fraction.
  pub query-packet :
      (a : Answers)
      → (create_udp_socket a).1 ≡ none
      → a.timeouts_set ≡ true
      → a.send_time ≡ some sent_at
      → a.sent ≡ pos 48
      → a.receive_time ≡ some received_at
      → a.datagram ≡ some (packet first level middle sec frac)
      → (query d ntp a).1 ≡ record {
        ok = true;
        offset_seconds = ahead d sent_at received_at (since_1970 d sec frac);
        stratum = level;
        error = [];
      }
  unfolding query dialogue answer offset_of ntp_timestamp_to_unix timeval_to_seconds
  query-packet a made set at_send all_sent at_receive came =
      rw (made, query)
        (rw (set, at_send, dialogue) (rw (all_sent, at_receive, came) measured-packet))
