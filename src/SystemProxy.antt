-- ===== src/SystemProxy.antt =====
-- internal/core/system_proxy.go: the snapshot of the operating system's proxy settings. How a platform
-- reads and writes them is not modelled.
use sudoku_desktop.Prelude.{ℕ, Bool, List, Option, String, ℤ}

pub record DarwinProxy : Type 0 where
  pub enabled : Bool
  pub server : String
  pub port : ℤ

pub record DarwinProxySnapshot : Type 0 where
  pub service : String
  pub auto_proxy_on : Bool
  pub auto_proxy_url : String
  pub web : DarwinProxy
  pub secure : DarwinProxy
  pub socks : DarwinProxy
  pub bypass_domains : List String

pub record GsettingsSnapshot : Type 0 where
  pub mode : String
  pub auto_config_url : String
  pub http_host : String
  pub http_port : ℤ
  pub https_host : String
  pub https_port : ℤ
  pub socks_host : String
  pub socks_port : ℤ
  pub ignore_hosts : List String

pub record KdeProxySnapshot : Type 0 where
  pub tool : String
  pub proxy_type : String
  pub http_proxy : String
  pub https_proxy : String
  pub socks_proxy : String
  pub no_proxy_for : String
  pub auto_conf_url : String

pub record LinuxProxySnapshot : Type 0 where
  pub gnome : Option GsettingsSnapshot
  pub kde : Option KdeProxySnapshot

pub record WindowsProxySnapshot : Type 0 where
  pub proxy_enable : ℕ
  pub auto_detect : ℕ
  pub proxy_server : String
  pub auto_config_url : String
  pub proxy_override : String
  pub win_http : Option (List ℕ)

-- `systemProxySnapshot`
pub record Snapshot : Type 0 where
  pub darwin : List DarwinProxySnapshot
  pub linux : Option LinuxProxySnapshot
  pub windows : Option WindowsProxySnapshot
