-- ===== src/Wire.antt =====
-- shared/codecs: the structures on the wire, one module for each codec.
pub mod Eid
pub mod AuthTimestamp
pub mod Bag
pub mod PeekItem
pub mod PeekItemHead
pub mod PullItem
pub mod PushItem
pub mod NotifItem
pub mod UsageQuota
pub mod RespHead
pub mod Kdm
pub mod FileIndexItem
pub mod FileRealm
pub mod BundleHost
pub mod IdentityHosts
pub mod MessageHead
pub mod Ent
