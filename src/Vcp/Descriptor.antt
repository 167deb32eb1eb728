-- ===== src/Vcp/Descriptor.antt =====
-- The USB descriptors of the virtual COM port: `VCP_USB_CONFIG_DEFINE` in firmware/src/vcp/usb.h, and
-- `vcp_usb_interface_config` in firmware/src/vcp/usb.c.
use riceprobe.Base.{ℕ, suc, ◌+◌, ◌%◌, ◌<◌, ◌≡◌, ◌↔◌, refl, arith, List, [], ◌∷◌, length}
use riceprobe.Vcp.Device.{bulk_ep_mps}

-- The sizes and numbers of Zephyr's headers.
pub record Spec : Type 0 where
  pub sizeof_association : ℕ
  pub sizeof_if : ℕ
  pub sizeof_header : ℕ
  pub sizeof_cm : ℕ
  pub sizeof_acm : ℕ
  pub sizeof_union : ℕ
  pub sizeof_ep : ℕ
  pub desc_interface_assoc : ℕ
  pub desc_interface : ℕ
  pub desc_cs_interface : ℕ
  pub desc_endpoint : ℕ
  pub bcc_cdc_control : ℕ
  pub bcc_cdc_data : ℕ
  pub acm_subclass : ℕ
  pub header_func_desc : ℕ
  pub call_management_func_desc : ℕ
  pub acm_func_desc : ℕ
  pub union_func_desc : ℕ
  pub usb_srn_1_1 : ℕ
  pub auto_ep_in : ℕ
  pub auto_ep_out : ℕ
  pub dc_ep_bulk : ℕ
  pub dc_ep_interrupt : ℕ
  pub max_fs_int_mps : ℕ

pub record Association : Type 0 where
  pub b_length : ℕ
  pub b_descriptor_type : ℕ
  pub b_first_interface : ℕ
  pub b_interface_count : ℕ
  pub b_function_class : ℕ
  pub b_function_sub_class : ℕ
  pub b_function_protocol : ℕ
  pub i_function : ℕ

pub record Interface : Type 0 where
  pub b_length : ℕ
  pub b_descriptor_type : ℕ
  pub b_interface_number : ℕ
  pub b_alternate_setting : ℕ
  pub b_num_endpoints : ℕ
  pub b_interface_class : ℕ
  pub b_interface_sub_class : ℕ
  pub b_interface_protocol : ℕ
  pub i_interface : ℕ

-- The functional descriptors, with a length, a type and a subtype.
pub record Functional : Type 0 where
  pub b_function_length : ℕ
  pub b_descriptor_type : ℕ
  pub b_descriptor_subtype : ℕ

pub record Endpoint : Type 0 where
  pub b_length : ℕ
  pub b_descriptor_type : ℕ
  pub b_endpoint_address : ℕ
  pub bm_attributes : ℕ
  pub w_max_packet_size : ℕ
  pub b_interval : ℕ

-- `struct vcp_usb_descriptor`, with what the functional descriptors have behind their subtypes beside them.
pub record Descriptor : Type 0 where
  pub iad_cdc : Association
  pub if0 : Interface
  pub if0_header : Functional
  pub header_bcd_cdc : ℕ
  pub if0_cm : Functional
  pub cm_bm_capabilities : ℕ
  pub cm_b_data_interface : ℕ
  pub if0_acm : Functional
  pub acm_bm_capabilities : ℕ
  pub if0_union : Functional
  pub union_b_control_interface : ℕ
  pub union_b_subordinate_interface0 : ℕ
  pub if0_int_ep : Endpoint
  pub if1 : Interface
  pub if1_in_ep : Endpoint
  pub if1_out_ep : Endpoint

abbrev functional : Spec → ℕ → ℕ → Functional
functional z size subtype = record {
  b_function_length = size;
  b_descriptor_type = z.desc_cs_interface;
  b_descriptor_subtype = subtype;
}

abbrev bulk_ep : Spec → ℕ → Endpoint
bulk_ep z address = record {
  b_length = z.sizeof_ep;
  b_descriptor_type = z.desc_endpoint;
  b_endpoint_address = address;
  bm_attributes = z.dc_ep_bulk;
  w_max_packet_size = bulk_ep_mps;
  b_interval = 0;
}

-- `vcp_usb_descriptor_##idx`
unfoldable pub initial : Spec → Descriptor
initial z = record {
  iad_cdc = record {
    b_length = z.sizeof_association;
    b_descriptor_type = z.desc_interface_assoc;
    b_first_interface = 0;
    b_interface_count = 2;
    b_function_class = z.bcc_cdc_control;
    b_function_sub_class = z.acm_subclass;
    b_function_protocol = 0;
    i_function = 0;
  };
  if0 = record {
    b_length = z.sizeof_if;
    b_descriptor_type = z.desc_interface;
    b_interface_number = 0;
    b_alternate_setting = 0;
    b_num_endpoints = 1;
    b_interface_class = z.bcc_cdc_control;
    b_interface_sub_class = z.acm_subclass;
    b_interface_protocol = 0;
    i_interface = 0;
  };
  if0_header = functional z z.sizeof_header z.header_func_desc;
  header_bcd_cdc = z.usb_srn_1_1;
  if0_cm = functional z z.sizeof_cm z.call_management_func_desc;
  cm_bm_capabilities = 2;
  cm_b_data_interface = 1;
  if0_acm = functional z z.sizeof_acm z.acm_func_desc;
  acm_bm_capabilities = 2;
  if0_union = functional z z.sizeof_union z.union_func_desc;
  union_b_control_interface = 0;
  union_b_subordinate_interface0 = 1;
  if0_int_ep = record {
    b_length = z.sizeof_ep;
    b_descriptor_type = z.desc_endpoint;
    b_endpoint_address = z.auto_ep_in;
    bm_attributes = z.dc_ep_interrupt;
    w_max_packet_size = z.max_fs_int_mps;
    b_interval = 10;
  };
  if1 = record {
    b_length = z.sizeof_if;
    b_descriptor_type = z.desc_interface;
    b_interface_number = 1;
    b_alternate_setting = 0;
    b_num_endpoints = 2;
    b_interface_class = z.bcc_cdc_data;
    b_interface_sub_class = z.acm_subclass;
    b_interface_protocol = 0;
    i_interface = 0;
  };
  if1_in_ep = bulk_ep z z.auto_ep_in;
  if1_out_ep = bulk_ep z z.auto_ep_out;
}

-- `vcp_usb_interface_config`, with the index of the interface's name; the numbers are a `uint8_t`.
unfoldable pub interface_config : ℕ → ℕ → Descriptor → Descriptor
interface_config index number d = record d {
  iad_cdc = record (d.iad_cdc) { b_first_interface = number };
  if0 = record (d.if0) { b_interface_number = number; i_interface = index };
  union_b_control_interface = number;
  union_b_subordinate_interface0 = (number + 1) % 256;
  if1 = record (d.if1) { b_interface_number = (number + 1) % 256; i_interface = index };
}

-- What a host reads from front to back.
pub data Item : Type 0 where
  association : Association → Item
  interface : Interface → Item
  other : Item
  endpoint : Endpoint → Item

-- The fields of the packed struct in their order.
unfoldable pub items : Descriptor → List Item
items d =
    association d.iad_cdc
    ∷ interface d.if0
    ∷ other
    ∷ other
    ∷ other
    ∷ other
    ∷ endpoint d.if0_int_ep
    ∷ interface d.if1
    ∷ endpoint d.if1_in_ep
    ∷ endpoint d.if1_out_ep
    ∷ []

-- How many endpoints stand before the next interface.
unfoldable pub endpoints : List Item → ℕ
endpoints [] = 0
endpoints (association a ∷ more) = 0
endpoints (interface i ∷ more) = 0
endpoints (other ∷ more) = endpoints more
endpoints (endpoint e ∷ more) = suc (endpoints more)

-- The interfaces, each with the number of endpoints that stand behind it.
unfoldable pub interfaces : List Item → List (Interface × ℕ)
unfolding endpoints
interfaces [] = []
interfaces (association a ∷ more) = interfaces more
interfaces (interface i ∷ more) = (i, endpoints more) ∷ interfaces more
interfaces (other ∷ more) = interfaces more
interfaces (endpoint e ∷ more) = interfaces more

-- The interfaces have the numbers from this one on, and as many endpoints as they tell.
abbrev pub AreNumbered : ℕ → List (Interface × ℕ) → Type 0
AreNumbered n [] = Unit {0}
AreNumbered n ((i, found) ∷ more) =
    (i.b_interface_number ≡ n) × (i.b_num_endpoints ≡ found) × AreNumbered (suc n) more

next_number : (number : ℕ) → number < 255 → (number + 1) % 256 ≡ suc number
next_number number h = omega (arith, h)

-- A host finds the port whole, whatever number its first interface is given, up to 254: the association covers
-- all the interfaces that stand behind it, these have the numbers from its first one on and as many endpoints as
-- they tell, and the union descriptor names both of them; but the call management descriptor names the data
-- interface only where the first interface has number 0.
pub interface_config_lem :
    (z : Spec) (index number : ℕ)
    → number < 255
    → let d = interface_config index number (initial z) in
      AreNumbered d.iad_cdc.b_first_interface (interfaces (items d))
      × (length (interfaces (items d)) ≡ d.iad_cdc.b_interface_count)
      × (d.union_b_control_interface ≡ d.if0.b_interface_number)
      × (d.union_b_subordinate_interface0 ≡ d.if1.b_interface_number)
      × ((d.cm_b_data_interface ≡ d.if1.b_interface_number) ↔ (number ≡ 0))
unfolding interface_config initial items interfaces
interface_config_lem z index number h = (
  (refl, refl, (next_number number h, refl, tt)),
  refl,
  refl,
  refl,
  ((λ same. omega (arith, h, same)), (λ none. omega (arith, h, none))),
)
