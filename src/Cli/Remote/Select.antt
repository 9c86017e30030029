-- ===== src/Cli/Remote/Select.antt =====
-- Which proxy is selected by the client.
use control_tower.Prelude.{String, Bool, true, false, ◌≡◌, refl, some, List, arith, if_elim}
use mathlib.Core.List.{Memᴰ}
use control_tower.Profiles.{RuleProviderConfig}
use control_tower.Yaml.{Yaml}
use control_tower.Service.Ipc as Ipc
use control_tower.Service.Ipc.{IpcCommand, IpcResponse}
use control_tower.Socket.{Response, Codec}
use control_tower.Cli.Settings.{Save, set_selected_proxy}
use control_tower.Cli.Proxies.{
  Resolved, invalid_index, no_match, out_of_range, chosen, resolve_proxy_name,
}
use control_tower.Cli.Proxies.Named.{IsKnown, resolve_proxy_name-IsKnown}
use control_tower.Cli.Remote.{
  Remote, Session, done, persist_proxy, after_selection, select_proxy, select_resolved,
  select_proxy_node,
}

module _ {J V : Type 0} (y : Yaml) (to_value : RuleProviderConfig → y.Value)
    (commands : Codec IpcCommand) (responses : Codec (Response V))
    (wire : IpcResponse J → Response V) where
  -- The selected proxy is one of the names, and the daemon or Mihomo has accepted it.
  unfoldable pub IsSelected :
      List String
      → Remote y to_value commands responses wire
      → Bool × Session y to_value commands responses wire
      → Type 0
  IsSelected names r o =
      (name : String) × Memᴰ name names
      × (o.1.settings.selected_proxy ≡ some name)
      × (done y to_value commands responses wire r (Ipc.select name) ≡ true)

  select_resolved-IsSelected :
      (names : List String) (r : Remote y to_value commands responses wire) (w again : Save)
      (x : Resolved) (s : Session y to_value commands responses wire)
      → IsKnown names x
      → (select_resolved y to_value commands responses wire r w again x s).0 ≡ true
      → IsSelected names r (select_resolved y to_value commands responses wire r w again x s)
  unfolding select_resolved select_proxy set_selected_proxy IsSelected
  select_resolved-IsSelected names r w again invalid_index s k h = absurd (ground (arith, h))
  select_resolved-IsSelected names r w again no_match s k h = absurd (ground (arith, h))
  select_resolved-IsSelected names r w again (out_of_range i) s k h = absurd (ground (arith, h))
  select_resolved-IsSelected names r w again (chosen name) s k h =
      let P : Bool × Session y to_value commands responses wire → Type 0 = λ o.
        (after_selection y to_value commands responses wire again name o).0 ≡ true
        → IsSelected names r (after_selection y to_value commands responses wire again name o) in
      if_elim P (done y to_value commands responses wire r (Ipc.select name))
        (true, persist_proxy y to_value commands responses wire w name s) (false, s)
        (λ e h. (name, k, refl, e)) (λ e h. absurd (ground (arith, h))) h

  -- Whenever the client reports that a proxy is selected, whatever text it was given, the proxy that
  -- its settings then name is one of those that Mihomo lists, and the daemon or Mihomo has accepted
  -- the selection of just this proxy.
  select_proxy_node-IsSelected :
      (to_lowercase : String → String) (names : List String)
      (r : Remote y to_value commands responses wire) (w again : Save) (selector : String)
      (s : Session y to_value commands responses wire)
      → (select_proxy_node y to_value commands responses wire to_lowercase names r w again selector
          s).0
        ≡ true
      → IsSelected names r (
          select_proxy_node y to_value commands responses wire to_lowercase names r w again selector
            s)
  unfolding select_proxy_node
  select_proxy_node-IsSelected to_lowercase names r w again selector s =
      select_resolved-IsSelected names r w again (resolve_proxy_name to_lowercase names selector) s
        (resolve_proxy_name-IsKnown to_lowercase names selector)
