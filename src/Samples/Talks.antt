-- ===== src/Samples/Talks.antt =====
-- Conversations, counts and JSON texts at concrete inputs.
use netmon_plugins.Cpp.Result.{returns}
use netmon_plugins.Dialogue.Conforms.{IsTidy}
use netmon_plugins.Dialogue.Ftp
use netmon_plugins.Dialogue.Ftp.Session.{ftp_check-IsConversation, ftp_script}
use netmon_plugins.Dialogue.Imap
use netmon_plugins.Dialogue.Ircd
use netmon_plugins.Dialogue.Jabber
use netmon_plugins.Dialogue.Nntp
use netmon_plugins.Dialogue.Pop
use netmon_plugins.Dialogue.Pop.Session.{
  pop_check-IsConversation, pop_check-prevails, pop_script, lacks_ok,
}
use netmon_plugins.Dialogue.Prevails.{IsKind}
use netmon_plugins.Dialogue.Resources.{sessions-AreTidy, probes-Close, Closes}
use netmon_plugins.Dialogue.Script.Playing.{IsConversation}
use netmon_plugins.Dialogue.Sip
use netmon_plugins.Dialogue.Smtp
use netmon_plugins.Dialogue.Ssh
use netmon_plugins.Dialogue.Stream.{count_received, EndsAfter, send_zookeeper_command-ends}
use netmon_plugins.Dialogue.TcpPort
use netmon_plugins.Dialogue.TcpPort.Link.{linking, untried, is_open, tcp_check-linked}
use netmon_plugins.Dialogue.Telnet
use netmon_plugins.Dialogue.UdpPort
use netmon_plugins.Dialogue.Zookeeper
use netmon_plugins.Json
use netmon_plugins.Json.Braces.{Nested, empty, braces, take_object-Nested}
use netmon_plugins.Net.{connect, World, run}
use netmon_plugins.Net.Tcp.{connect_tcp, send_command, read_response}
use netmon_plugins.Dialogue.Common
use netmon_plugins.Rest.Influxdb
use netmon_plugins.Rest.Statuses.{needs_answer, is_one_of, is_200, judges-answered}
use netmon_plugins.Rest.Consul
use netmon_plugins.Rest.Nomad
use netmon_plugins.Rest.Solr
use netmon_plugins.Rest.Grafana
use netmon_plugins.Rest.Vault
use netmon_plugins.Rest.Etcd
use netmon_plugins.Net.Logic.{Then, advance}
use netmon_plugins.Plugin.{ok, critical, plain_result}
use netmon_plugins.Prelude.Text.{Bytes, codes, contains, split_at_first, strip_prefix, text_eq}
use netmon_plugins.Prelude.{
  not, true, false, ◌≡◌, refl, [], ◌∷◌, ◌++◌, none, some, pos, leb, ◌+ℤ◌, ◌||◌, eqb_ℤ,
  if◌then◌else◌, arith,
}
use netmon_plugins.Rest
use netmon_plugins.Rest.Counting.{places, count_places-places}
use netmon_plugins.Rest.Kubernetes
use netmon_plugins.Rest.Kubernetes.Items.{IsBetween, bodies, count_objects-bodies}

-- Every call succeeds, and every reply is the same.
abbrev kind_world : World
kind_world = record { succeeds = λ past c. true; delivers = λ past. some (codes "+OK 200") }

-- No pattern is found.
abbrev no_regex : Json.Regex
no_regex = record {
  search = λ pattern text. returns none;
  search_any_case = λ pattern text. returns none;
}

abbrev pop_config : Pop.Config
pop_config = record Pop.default_config {
  hostname = codes "mail";
  username = codes "ann";
  password = codes "rose";
}

-- With credentials the greeting, the user and the password are answered.
pop_check-code : (run kind_world [] (Pop.check true pop_config)).1.1.code ≡ ok
unfolding Pop.check Pop.check_pop Pop.converse Pop.effective Pop.report Common.service_report
    connect_tcp send_command read_response contains split_at_first strip_prefix
pop_check-code = refl

pop_check-IsConversation_example :
    IsConversation kind_world
      (Pop.check true pop_config)
      (Pop.report true pop_config)
      (pop_script (codes "ann") (codes "rose"))
pop_check-IsConversation_example = pop_check-IsConversation kind_world true pop_config refl

kind_world-IsKind : IsKind lacks_ok kind_world
unfolding contains split_at_first strip_prefix
kind_world-IsKind = record { fine = λ past c. refl; accepted = λ past. refl }

pop_check-prevails_example : (run kind_world [] (Pop.check true pop_config)).1.1.code ≡ ok
pop_check-prevails_example = pop_check-prevails kind_world true pop_config refl kind_world-IsKind

abbrev ftp_config : Ftp.Config
ftp_config = record Ftp.default_config { hostname = codes "files"; anonymous = true }

-- The server wants no password.
abbrev ready_world : World
ready_world = record { succeeds = λ past c. true; delivers = λ past. some (codes "230 Logged in") }

ftp_check-IsConversation_example :
    IsConversation ready_world
      (Ftp.check ftp_config)
      (Ftp.report ftp_config)
      (ftp_script ftp_config)
ftp_check-IsConversation_example = ftp_check-IsConversation ready_world ftp_config refl

sessions-AreTidy_example :
    IsTidy kind_world (pos 10) 4 (Pop.check true pop_config)
    × IsTidy kind_world (pos 10) 3 (Imap.check true Imap.default_config)
    × IsTidy kind_world (pos 10) 4 (Ftp.check ftp_config)
    × IsTidy kind_world (pos 10) 4 (Nntp.check Nntp.default_config)
    × IsTidy kind_world (pos 10) 3 (Ircd.check Ircd.default_config)
    × IsTidy kind_world (pos 10) 2 (Telnet.check Telnet.default_config)
sessions-AreTidy_example =
    sessions-AreTidy kind_world true pop_config Imap.default_config ftp_config Nntp.default_config
      Ircd.default_config Telnet.default_config

abbrev tcp_config : TcpPort.Config
tcp_config = record { hostname = codes "www"; port = pos 80; timeout_seconds = pos 10 }

-- `connect` leaves the connection on its way, and all else succeeds.
abbrev slow_world : World
slow_world = record {
  succeeds = λ past c. elim c [ connect ↦ false | _ ↦ true ];
  delivers = λ past. none;
}

probes-Close_example :
    Closes slow_world (Smtp.check Smtp.default_config)
    × Closes slow_world (Ssh.check Ssh.default_config)
    × Closes slow_world (TcpPort.check tcp_config)
    × Closes slow_world (UdpPort.check UdpPort.default_config)
    × Closes slow_world (Sip.check Sip.default_config)
    × Closes slow_world (Jabber.check Jabber.default_config)
    × Closes slow_world (Zookeeper.check 3 Zookeeper.default_config)
probes-Close_example =
    probes-Close slow_world 3 Smtp.default_config Ssh.default_config tcp_config
      UdpPort.default_config Sip.default_config Jabber.default_config Zookeeper.default_config

tcp_check-linked_example :
    Then (advance linking (run slow_world [] (TcpPort.check tcp_config)).0 untried) (λ l.
      (run slow_world [] (TcpPort.check tcp_config)).1 ≡ TcpPort.report tcp_config (is_open l))
tcp_check-linked_example = tcp_check-linked slow_world tcp_config refl

-- One piece without a line end, and then the end of the stream.
abbrev closing_world : World
closing_world = record {
  succeeds = λ past c. true;
  delivers = λ past. if leb 1 (count_received past) then some [] else some (codes "imok");
}

closes_after_one : EndsAfter closing_world 1
closes_after_one past h = ground arith

send_zookeeper_command-ends_example :
    (response : Bytes) × ((run closing_world []
        (Zookeeper.send_zookeeper_command 2 (codes "ruok"))).1
      ≡ some response)
send_zookeeper_command-ends_example =
    send_zookeeper_command-ends closing_world 1 [] (codes "ruok") closes_after_one (omega arith)

zookeeper_reply :
    (run closing_world [] (Zookeeper.send_zookeeper_command 2 (codes "ruok"))).1
    ≡ some (codes "imok")
unfolding Zookeeper.send_zookeeper_command Zookeeper.receive_line contains split_at_first
    strip_prefix
zookeeper_reply = refl

abbrev two_braces : Bytes
two_braces = codes "{}"

two_braces-Nested : Nested two_braces
two_braces-Nested = braces empty empty

take_object-Nested_example :
    Json.take_object 1 (codes "{}" ++ b'}' ∷ codes ", 1") ≡ some (codes "{}" ++ b'}' ∷ [])
take_object-Nested_example = take_object-Nested two_braces-Nested (codes ", 1")

count_places-places_example :
    Rest.count_places (codes "aa") (codes "aaa aa") ≡ places 0 (codes "aa") (codes "aaa aa")
count_places-places_example = count_places-places b'a' (codes "a") (codes "aaa aa")

two_places : Rest.count_places (codes "aa") (codes "aaa aa") ≡ 2
unfolding Rest.count_places Rest.count_from split_at_first strip_prefix
two_places = refl

white_space-IsBetween : IsBetween (codes " ")
white_space-IsBetween = (λ p. ground arith, λ p. ground arith, λ p. ground arith, tt)

comma-IsBetween : IsBetween (codes ", ")
comma-IsBetween = (λ p. ground arith, λ p. ground arith, λ p. ground arith, white_space-IsBetween)

count_objects-bodies_example :
    Kubernetes.count_objects
      (pos 0)
      0
      (codes " " ++ b'{' ∷ bodies (codes "{}") ((codes ", ", []) ∷ []) (codes " ") (codes "}"))
    ≡ 2
count_objects-bodies_example =
    count_objects-bodies (codes " ") (codes "{}") ((codes ", ", []) ∷ []) (codes " ") (codes "}")
      white_space-IsBetween two_braces-Nested (comma-IsBetween, empty, tt) white_space-IsBetween

-- An empty array with an object behind it.
one_item_of_none : Kubernetes.count_items (codes "{\"items\":[],\"metadata\":{}}") ≡ 1
unfolding Kubernetes.count_items Kubernetes.count_objects split_at_first strip_prefix ◌+ℤ◌
one_item_of_none = refl

-- The answer to `/ping` that InfluxDB gives: 204, without a body.
no_content :
    Influxdb.judge no_regex (codes "ping") [] (pos 204)
    ≡ returns (plain_result critical (codes "InfluxDB CRITICAL - Cannot connect to API server"))
unfolding Influxdb.judge
no_content = refl

-- A plugin is asked for a check that it does not know, and the server fails.
unknown_check :
    Influxdb.judge no_regex (codes "pings") (codes "error") (pos 500)
    ≡ returns (plain_result ok (codes "InfluxDB OK - API responding"))
unfolding Influxdb.judge text_eq
unknown_check = refl

judges-answered_example :
    (needs_answer
        (Consul.judge no_regex (codes "health") (codes "[]") (pos 200))
        (is_200 (pos 200))
        (codes "[]")
      ≡ true)
    × (needs_answer
          (Nomad.judge no_regex (codes "health") (codes "[]") (pos 200))
          (is_200 (pos 200))
          (codes "[]")
        ≡ true)
    × (needs_answer
          (Solr.judge no_regex (codes "health") (codes "[]") (pos 200))
          (is_200 (pos 200))
          (codes "[]")
        ≡ true)
    × (needs_answer
          (Grafana.judge no_regex (codes "health") (codes "[]") (pos 200))
          (is_200 (pos 200))
          (codes "[]")
        ≡ true)
    × (needs_answer
          (Vault.judge no_regex (codes "health") (codes "[]") (pos 200))
          (is_200 (pos 200)
            || eqb_ℤ (pos 200) (pos 429)
            || eqb_ℤ (pos 200) (pos 472)
            || eqb_ℤ (pos 200) (pos 473))
          (codes "[]")
        ≡ true)
    × ((not (is_one_of (codes "health") (codes "health" ∷ codes "version" ∷ codes "members" ∷ []))
          || needs_answer
              (Etcd.judge no_regex (codes "health") (codes "[]") (pos 200))
              (is_200 (pos 200))
              (codes "[]"))
        ≡ true)
    × ((not (is_one_of (codes "health") (codes "health" ∷ codes "nodes" ∷ codes "pods" ∷ []))
          || needs_answer
              (Kubernetes.judge no_regex (codes "health") (codes "[]") (pos 200))
              (is_200 (pos 200))
              (codes "[]"))
        ≡ true)
    × ((not (is_one_of (codes "health") (codes "ping" ∷ codes "databases" ∷ codes "health" ∷ []))
          || needs_answer
              (Influxdb.judge no_regex (codes "health") (codes "[]") (pos 200))
              (is_200 (pos 200) || eqb_ℤ (pos 200) (pos 204))
              (codes "[]"))
        ≡ true)
judges-answered_example = judges-answered no_regex (codes "health") (codes "[]") (pos 200)
