-- ===== src/Dns.antt =====
-- src/dns/: the clients of the DNS services.
pub mod Zones
pub mod Rest
pub mod Godaddy
pub mod Cloudflare
pub mod Linode
pub mod Digitalocean
pub mod Azure
pub mod Cloudns
pub mod Google
pub mod Huawei
pub mod Tencent
pub mod Alibaba
pub mod Requests
