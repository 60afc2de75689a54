-- ===== src/Collect/System.antt =====
-- Load, memory and sockets in app/collect.c: their fields of the collector and the discovery.
pub mod Sample
pub mod Zones
use axis_cam_metrics.Base.{
  ℕ, zero, suc, ◌+◌, List, [], ◌∷◌, ◌++◌, none, some, if◌then◌else◌, ◌==◌, get_or,
}
use axis_cam_metrics.Base.Words.{sub64}
use axis_cam_metrics.Base.Text.{Text, codes, strlcpy}
use axis_cam_metrics.Floats.{Floats}
use axis_cam_metrics.Metrics.{MetricRegistry, metric_id_max}
use axis_cam_metrics.Collect.{sanitize, metric_label_max}
use axis_cam_metrics.Collect.Device.{Device, Scanning, read_text, reg, read_double, set_reading}

-- The fields of `Collector` for load, memory and sockets.
pub record System : Type 0 where
  pub idx_load1 : ℕ
  pub idx_load5 : ℕ
  pub idx_load15 : ℕ
  pub idx_mem_total : ℕ
  pub idx_mem_used : ℕ
  pub idx_mem_free : ℕ
  pub idx_mem_available : ℕ
  pub idx_mem_buffers : ℕ
  pub idx_mem_cached : ℕ
  pub idx_mem_usage : ℕ
  pub idx_swap_total : ℕ
  pub idx_swap_used : ℕ
  pub idx_swap_usage : ℕ
  pub idx_uptime : ℕ
  pub idx_procs : ℕ
  pub idx_procs_running : ℕ
  pub idx_ctxt : ℕ
  pub idx_sockets : ℕ
  pub idx_tcp_inuse : ℕ
  pub idx_udp_inuse : ℕ

-- A metric of a group.
abbrev system_metric : MetricRegistry → Text → Text → Text → MetricRegistry × ℕ
system_metric r id label unit = reg r id label unit (codes "system")

abbrev memory_metric : MetricRegistry → Text → Text → Text → MetricRegistry × ℕ
memory_metric r id label unit = reg r id label unit (codes "memory")

unfoldable pub discover_system : MetricRegistry → MetricRegistry × System
unfolding reg
discover_system r0 =
    let (r1, load1) = system_metric r0 (codes "load.1") (codes "Load average 1m") [] in
    let (r2, load5) = system_metric r1 (codes "load.5") (codes "Load average 5m") [] in
    let (r3, load15) = system_metric r2 (codes "load.15") (codes "Load average 15m") [] in
    let (r4, uptime) = system_metric r3 (codes "sys.uptime") (codes "Uptime") (codes "s") in
    let (r5, procs) = system_metric r4 (codes "sys.processes") (codes "Processes") [] in
    let (r6, running) =
      system_metric r5 (codes "sys.processes_running") (codes "Runnable processes") [] in
    let (r7, ctxt) =
      system_metric r6 (codes "sys.context_switches") (codes "Context switches") (codes "/s") in
    let (r8, sockets) = system_metric r7 (codes "sys.sockets") (codes "Sockets in use") [] in
    let (r9, tcp) = system_metric r8 (codes "sys.tcp_inuse") (codes "TCP sockets") [] in
    let (r10, udp) = system_metric r9 (codes "sys.udp_inuse") (codes "UDP sockets") [] in
    let (r11, total) = memory_metric r10 (codes "mem.total") (codes "Memory total") (codes "B") in
    let (r12, used) = memory_metric r11 (codes "mem.used") (codes "Memory used") (codes "B") in
    let (r13, free) = memory_metric r12 (codes "mem.free") (codes "Memory free") (codes "B") in
    let (r14, available) =
      memory_metric r13 (codes "mem.available") (codes "Memory available") (codes "B") in
    let (r15, buffers) = memory_metric r14 (codes "mem.buffers") (codes "Buffers") (codes "B") in
    let (r16, cached) = memory_metric r15 (codes "mem.cached") (codes "Cached") (codes "B") in
    let (r17, usage) = memory_metric r16 (codes "mem.usage") (codes "Memory usage") (codes "%") in
    let (r18, swap_total) =
      memory_metric r17 (codes "mem.swap_total") (codes "Swap total") (codes "B") in
    let (r19, swap_used) =
      memory_metric r18 (codes "mem.swap_used") (codes "Swap used") (codes "B") in
    let (r20, swap_usage) =
      memory_metric r19 (codes "mem.swap_usage") (codes "Swap usage") (codes "%") in
    (
      r20,
      record {
        idx_load1 = load1;
        idx_load5 = load5;
        idx_load15 = load15;
        idx_mem_total = total;
        idx_mem_used = used;
        idx_mem_free = free;
        idx_mem_available = available;
        idx_mem_buffers = buffers;
        idx_mem_cached = cached;
        idx_mem_usage = usage;
        idx_swap_total = swap_total;
        idx_swap_used = swap_used;
        idx_swap_usage = swap_usage;
        idx_uptime = uptime;
        idx_procs = procs;
        idx_procs_running = running;
        idx_ctxt = ctxt;
        idx_sockets = sockets;
        idx_tcp_inuse = tcp;
        idx_udp_inuse = udp;
      },
    )
