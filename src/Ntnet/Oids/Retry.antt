-- ===== src/Ntnet/Oids/Retry.antt =====
-- driver/net/reactos/ntnet.c: what a caller of a query may rely on.
use ntlinux.Common.{ℕ, ◌<◌, ◌≡◌, arith}
use ntlinux.Ntnet.{Constants, Adapter, ndis_success, invalid_length}
use ntlinux.Ntnet.Oids.{Oid, query_u32, query_information}

-- A query that is refused for the length of its buffer writes nothing and names a length that is
-- greater than the buffer's; the query again with a buffer of that length succeeds and fills it.
pub query_information-retry :
    (c : Constants) (a : Adapter) (oid : Oid) (n : ℕ)
    → (query_information c a oid n).status ≡ invalid_length
    → let r = query_information c a oid n in
      (n < r.needed)
      × (r.written ≡ 0)
      × ((query_information c a oid r.needed).status ≡ ndis_success)
      × ((query_information c a oid r.needed).written ≡ r.needed)
unfolding query_information query_u32
query_information-retry c a oid n h = ground arith
