-- ===== src/Ntp.antt =====
-- src/common/ntp_client.cpp (the POSIX branches): the offset of the local clock from an NTP server, or from one
-- that speaks the time protocol of RFC 868. The arithmetic of `double` is the argument `Doubles`, what the
-- system answers is the argument `Answers`, and the calls on sockets are returned as a trace, in which `setsockopt`
-- stands for the two calls of `setSocketTimeout`.
pub mod Sockets
pub mod Stamps
use netmon_plugins.Prelude.{
  ℕ, ◌+◌, ◌*◌, ◌^◌, Bool, true, false, ◌==◌, ltb, not, if◌then◌else◌, List, [], ◌∷◌, ◌++◌, Option,
  none, some, is_empty, length, get_or, take, ℤ, pos, eqb_ℤ, ltb_ℤ, minus_one,
}
use netmon_plugins.Prelude.Text.{Bytes, codes}

-- What the client uses of `double`.
pub record Doubles (D : Type 0) : Type 0 where
  pub of_int : ℤ → D
  pub add : D → D → D
  pub subtract : D → D → D
  pub divide : D → D → D

pub record Timeval : Type 0 where
  pub sec : ℤ
  pub usec : ℤ

-- `NtpQueryResult`
pub record QueryResult (D : Type 0) : Type 0 where
  pub ok : Bool
  pub offset_seconds : D
  pub stratum : ℕ
  pub error : Bytes

-- The calls on sockets, with whether they succeed where they take something.
pub data Call : Type 0 where
  getaddrinfo : Bool → Call
  socket : Bool → Call
  freeaddrinfo setsockopt recvfrom close : Call
  sendto : Bytes → Call

pub record Answers : Type 0 where
  -- for each address of the host, whether `socket` succeeds; there is none if the name is not resolved
  pub addresses : List Bool
  pub gai_strerror : Bytes
  pub timeouts_set : Bool
  pub send_time : Option Timeval
  -- what `sendto` returns
  pub sent : ℤ
  -- the datagram, if `recvfrom` succeeds
  pub datagram : Option Bytes
  pub receive_time : Option Timeval

-- The loop over the addresses, up to the first socket.
unfoldable pub try_addresses : List Bool → List Call × Bool
try_addresses [] = ([], false)
try_addresses (opened ∷ rest) =
    let later = try_addresses rest in
    if opened then (socket true ∷ [], true) else (socket false ∷ later.0, later.1)

-- `createUdpSocket`: the error, if there is no socket.
unfoldable pub create_udp_socket : Answers → List Call × Option Bytes
create_udp_socket a =
    let tries = try_addresses a.addresses in
    if is_empty a.addresses
    then (getaddrinfo false ∷ [], some (codes "Cannot resolve hostname: " ++ a.gai_strerror))
    else (
      getaddrinfo true ∷ (tries.0 ++ freeaddrinfo ∷ []),
      (if tries.1 then none else some (codes "Cannot create UDP socket")),
    )

-- Four bytes, the highest first, from a place on; the array has a zero where nothing was received.
unfoldable pub read_uint32 : Bytes → ℕ → ℕ
read_uint32 r i =
    get_or r i 0 * 2 ^ 24
    + get_or r (i + 1) 0 * 2 ^ 16
    + get_or r (i + 2) 0 * 2 ^ 8
    + get_or r (i + 3) 0

abbrev pub ntp_unix_epoch_diff : ℕ
ntp_unix_epoch_diff = 2208988800

-- What the two queries differ in: the request, the size of an answer, the test of what `sendto` returns, the two
-- errors, and the reading of an answer as a stratum and a time stamp.
pub record Protocol : Type 0 where
  pub request : Bytes
  pub size : ℕ
  pub is_sent : ℤ → Bool
  pub send_error : Bytes
  pub receive_error : Bytes
  pub read : Bytes → ℕ × (ℕ × ℕ)

module _ {D : Type 0} (d : Doubles D) where
  -- `ntpTimestampToUnix`
  unfoldable pub ntp_timestamp_to_unix : ℕ → ℕ → D
  ntp_timestamp_to_unix sec frac =
      d.add (d.subtract (d.of_int (pos sec)) (d.of_int (pos ntp_unix_epoch_diff)))
        (d.divide (d.of_int (pos frac)) (d.of_int (pos (2 ^ 32))))

  unfoldable pub timeval_to_seconds : Timeval → D
  timeval_to_seconds tv =
      d.add (d.of_int tv.sec) (d.divide (d.of_int tv.usec) (d.of_int (pos 1000000)))

  -- `localMidpoint - serverTime`
  unfoldable pub offset_of : Timeval → Timeval → D → D
  offset_of sent_at received_at server_time =
      d.subtract
        (d.divide (d.add (timeval_to_seconds sent_at) (timeval_to_seconds received_at))
          (d.of_int (pos 2)))
        server_time

  abbrev pub failed : Bytes → QueryResult D
  failed message = record {
    ok = false;
    offset_seconds = d.of_int (pos 0);
    stratum = 0;
    error = message;
  }

  -- The end of both functions, at an answer that may be too short.
  unfoldable pub measured : Protocol → Option Bytes → Timeval → Timeval → QueryResult D
  measured p none sent_at received_at = failed p.receive_error
  measured p (some datagram) sent_at received_at =
      let response = take p.size datagram in
      let (level, (sec, frac)) = p.read response in
      if ltb (length response) p.size then failed p.receive_error else record {
        ok = true;
        offset_seconds = offset_of sent_at received_at (ntp_timestamp_to_unix sec frac);
        stratum = level;
        error = [];
      }

  -- What is done behind `createUdpSocket`, at an open socket.
  unfoldable pub dialogue : Protocol → Answers → List Call × QueryResult D
  dialogue p a =
      if not a.timeouts_set
      then (setsockopt ∷ close ∷ [], failed (codes "Failed to set socket timeout"))
      else elim a.send_time [
        | none ↦ (setsockopt ∷ close ∷ [], failed (codes "Failed to read local time"))
        | some sent_at ↦
            if not (p.is_sent a.sent)
            then (setsockopt ∷ sendto p.request ∷ close ∷ [], failed p.send_error)
            else (
              setsockopt ∷ sendto p.request ∷ recvfrom ∷ close ∷ [],
              elim a.receive_time [
                | none ↦ failed (codes "Failed to read local time")
                | some received_at ↦ measured p a.datagram sent_at received_at
              ],
            )
      ]

  unfoldable pub query : Protocol → Answers → List Call × QueryResult D
  query p a =
      let opened = create_udp_socket a in
      let rest = dialogue p a in
      elim opened.1 [ some error ↦ (opened.0, failed error) | none ↦ (opened.0 ++ rest.0, rest.1) ]

abbrev pub zeros : ℕ → Bytes
zeros ℕ.zero = []
zeros (ℕ.suc n) = 0 ∷ zeros n

-- `queryNtpOffset`: 48 bytes each way, the stratum in the second, the transmit time stamp in the last eight.
abbrev pub ntp : Protocol
ntp = record {
  request = 27 ∷ zeros 47;
  size = 48;
  is_sent = λ n. eqb_ℤ n (pos 48);
  send_error = codes "Failed to send NTP request";
  receive_error = codes "No NTP response received";
  read = λ r. (get_or r 1 0, (read_uint32 r 40, read_uint32 r 44));
}

-- `queryTimeProtocolOffset`
abbrev pub time_protocol : Protocol
time_protocol = record {
  request = 0 ∷ [];
  size = 4;
  is_sent = λ n. not (ltb_ℤ n (pos 0));
  send_error = codes "Failed to send time protocol request";
  receive_error = codes "No time protocol response received";
  read = λ r. (0, (read_uint32 r 0, 0));
}
