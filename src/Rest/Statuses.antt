-- ===== src/Rest/Statuses.antt =====
-- Which HTTP answers the plugins of Rest report as OK.
use netmon_plugins.Cpp.Result.{Result, returns, throws, undefined}
use netmon_plugins.Json.{Regex}
use netmon_plugins.Plugin.{ok, PluginResult}
use netmon_plugins.Prelude.Text.{Bytes, text_eq, codes}
use netmon_plugins.Prelude.{
  Bool, true, false, ◌&&◌, ◌||◌, not, ◌≡◌, List, [], ◌∷◌, is_empty, ℤ, pos, eqb_ℤ, arith,
}
use netmon_plugins.Rest.Ceph
use netmon_plugins.Rest.Consul
use netmon_plugins.Rest.Etcd
use netmon_plugins.Rest.Grafana
use netmon_plugins.Rest.Influxdb
use netmon_plugins.Rest.Kubernetes
use netmon_plugins.Rest.Nomad
use netmon_plugins.Rest.Solr
use netmon_plugins.Rest.Vault

-- The result is returned, and it is OK.
abbrev pub is_ok : Result PluginResult → Bool
is_ok (returns r) = elim r.code [ ok ↦ true | _ ↦ false ]
is_ok (throws e) = false
is_ok undefined = false

-- One of the codes was answered, with a body that is not empty.
abbrev pub answered : Bool → Bytes → Bool
answered status response = status && not (is_empty response)

abbrev pub is_200 : ℤ → Bool
is_200 status = eqb_ℤ status (pos 200)

-- An OK result only with a body that is not empty and one of the codes.
abbrev pub needs_answer : Result PluginResult → Bool → Bytes → Bool
needs_answer r status response = not (is_ok r) || answered status response

-- The check is one of those that the plugin's usage text names.
abbrev pub is_one_of : Bytes → List Bytes → Bool
is_one_of check_type [] = false
is_one_of check_type (t ∷ ts) = text_eq check_type t || is_one_of check_type ts

consul_answered :
    (regex : Regex) (check_type : Bytes) (response : Bytes) (status : ℤ)
    → needs_answer (Consul.judge regex check_type response status) (is_200 status) response ≡ true
unfolding Consul.judge
consul_answered regex check_type response status = ground arith

nomad_answered :
    (regex : Regex) (check_type : Bytes) (response : Bytes) (status : ℤ)
    → needs_answer (Nomad.judge regex check_type response status) (is_200 status) response ≡ true
unfolding Nomad.judge
nomad_answered regex check_type response status = ground arith

solr_answered :
    (regex : Regex) (check_type : Bytes) (response : Bytes) (status : ℤ)
    → needs_answer (Solr.judge regex check_type response status) (is_200 status) response ≡ true
unfolding Solr.judge
solr_answered regex check_type response status = ground arith

grafana_answered :
    (regex : Regex) (check_type : Bytes) (response : Bytes) (status : ℤ)
    → needs_answer (Grafana.judge regex check_type response status) (is_200 status) response ≡ true
unfolding Grafana.judge
grafana_answered regex check_type response status = ground arith

vault_answered :
    (regex : Regex) (check_type : Bytes) (response : Bytes) (status : ℤ)
    → needs_answer
        (Vault.judge regex check_type response status)
        (is_200 status
          || eqb_ℤ status (pos 429)
          || eqb_ℤ status (pos 472)
          || eqb_ℤ status (pos 473))
        response
      ≡ true
unfolding Vault.judge
vault_answered regex check_type response status = ground arith

etcd_answered :
    (regex : Regex) (check_type : Bytes) (response : Bytes) (status : ℤ)
    → (not (is_one_of check_type (codes "health" ∷ codes "version" ∷ codes "members" ∷ []))
        || needs_answer (Etcd.judge regex check_type response status) (is_200 status) response)
      ≡ true
unfolding Etcd.judge
etcd_answered regex check_type response status = ground arith

kubernetes_answered :
    (regex : Regex) (check_type : Bytes) (response : Bytes) (status : ℤ)
    → (not (is_one_of check_type (codes "health" ∷ codes "nodes" ∷ codes "pods" ∷ []))
        || needs_answer
            (Kubernetes.judge regex check_type response status)
            (is_200 status)
            response)
      ≡ true
unfolding Kubernetes.judge Kubernetes.report_items
kubernetes_answered regex check_type response status = ground arith

influxdb_answered :
    (regex : Regex) (check_type : Bytes) (response : Bytes) (status : ℤ)
    → (not (is_one_of check_type (codes "ping" ∷ codes "databases" ∷ codes "health" ∷ []))
        || needs_answer
            (Influxdb.judge regex check_type response status)
            (is_200 status || eqb_ℤ status (pos 204))
            response)
      ≡ true
unfolding Influxdb.judge
influxdb_answered regex check_type response status = ground arith

ceph_answered :
    (regex : Regex) (c : Ceph.Config) (response : Bytes) (status : ℤ)
    → (not (is_one_of c.check_type (codes "health" ∷ codes "status" ∷ codes "osd" ∷ []))
        || needs_answer
            (Ceph.judge regex c response status)
            (is_200 status || eqb_ℤ status (pos 401))
            response)
      ≡ true
unfolding Ceph.judge
ceph_answered regex c response status = ground arith

-- An OK result of check_consul, check_nomad, check_solr and check_grafana needs the code 200 and a body that is
-- not empty; so does one of check_vault, where the codes 429, 472 and 473 will do as well; and so does one of
-- check_etcd, check_kubernetes and check_influxdb, where the kind of check is one of the three of the plugin; for
-- the last the code 204 will do as well.
pub judges-answered :
    (regex : Regex) (check_type response : Bytes) (status : ℤ)
    → (needs_answer (Consul.judge regex check_type response status) (is_200 status) response ≡ true)
      × (needs_answer (Nomad.judge regex check_type response status) (is_200 status) response
          ≡ true)
      × (needs_answer (Solr.judge regex check_type response status) (is_200 status) response ≡ true)
      × (needs_answer (Grafana.judge regex check_type response status) (is_200 status) response
          ≡ true)
      × (needs_answer
            (Vault.judge regex check_type response status)
            (is_200 status
              || eqb_ℤ status (pos 429)
              || eqb_ℤ status (pos 472)
              || eqb_ℤ status (pos 473))
            response
          ≡ true)
      × ((not (is_one_of check_type (codes "health" ∷ codes "version" ∷ codes "members" ∷ []))
            || needs_answer (Etcd.judge regex check_type response status) (is_200 status) response)
          ≡ true)
      × ((not (is_one_of check_type (codes "health" ∷ codes "nodes" ∷ codes "pods" ∷ []))
            || needs_answer
                (Kubernetes.judge regex check_type response status)
                (is_200 status)
                response)
          ≡ true)
      × ((not (is_one_of check_type (codes "ping" ∷ codes "databases" ∷ codes "health" ∷ []))
            || needs_answer
                (Influxdb.judge regex check_type response status)
                (is_200 status || eqb_ℤ status (pos 204))
                response)
          ≡ true)
judges-answered regex check_type response status = (
  consul_answered regex check_type response status,
  nomad_answered regex check_type response status,
  solr_answered regex check_type response status,
  grafana_answered regex check_type response status,
  vault_answered regex check_type response status,
  etcd_answered regex check_type response status,
  kubernetes_answered regex check_type response status,
  influxdb_answered regex check_type response status,
)
